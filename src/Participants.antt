-- ===== src/Participants.antt =====
-- core/ParticipantsDatabase.cpp, and what the core uses of a participant (IParticipant.hpp).
pub mod Database
pub mod Listener
pub mod Discovered
pub mod Laws
pub mod Configuration
pub mod Factory
pub mod Construction
pub mod Attributes
pub mod DiscoveryServer
pub mod InitialPeers
pub mod Transports
pub mod Descriptors
pub mod Security
