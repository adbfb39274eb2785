-- ===== src/Payload.antt =====
-- efficiency/payload: the pool that stores each message once and counts its references.
pub mod Pool
pub mod Fast
pub mod Client
pub mod Counting
pub mod Release
pub mod Safety
