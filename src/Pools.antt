-- ===== src/Pools.antt =====
-- Request-pool settlement (app/auth/pools.py): the arithmetic that divides what a pool spent.
pub mod Apportion
pub mod Settle
pub mod Join
mod Tests
