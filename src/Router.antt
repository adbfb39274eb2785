-- ===== src/Router.antt =====
-- core/DDSRouterImpl.cpp and the configuration that it is given.
pub mod Configuration
pub mod Core
pub mod Reload
pub mod Services
pub mod Entries
pub mod Loops
pub mod Settled
pub mod Discovered
pub mod Kept
pub mod Runs
pub mod Endpoints
pub mod Replaced
pub mod Outcome
pub mod Started
pub mod Creation
