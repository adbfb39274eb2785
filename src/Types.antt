-- ===== src/Types.antt =====
-- The values that the components exchange: identifiers, topics, endpoints.
pub mod ParticipantId
pub mod Guid
pub mod Topic
pub mod Rpc
pub mod Endpoint
pub mod SpecificQos
pub mod Names
pub mod Ros2
pub mod Environment
pub mod Address
pub mod ConnectionAddress
pub mod GuidPrefix
pub mod DomainId
pub mod ParticipantKind
pub mod KindNames
pub mod HostSets
pub mod TlsConfiguration
pub mod Data
