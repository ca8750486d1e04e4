-- ===== src/Conversion.antt =====
-- app/conversion: the conversions between the Anthropic and the OpenAI forms of a request.
pub mod Ids
pub mod Splitter
pub mod Stream
pub mod Tests
