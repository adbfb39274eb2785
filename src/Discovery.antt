-- ===== src/Discovery.antt =====
-- dynamic/DiscoveryDatabase.cpp: the endpoints that the participants have discovered.
pub mod Database
pub mod Routine
pub mod Refinement
pub mod Stale
