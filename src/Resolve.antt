-- ===== src/Resolve.antt =====
-- app/model_resolution.py and the parts it calls: from the name that a client sends to the model that
-- serves it.
pub mod Index
pub mod Rotation
pub mod Evaluate
pub mod Names
pub mod Given
pub mod Served
pub mod Ends
pub mod Alike
pub mod Layers
mod Tests
