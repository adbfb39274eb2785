-- ===== src/Yaml.antt =====
-- ddsrouter_yaml: the configuration of the router read from YAML.
pub mod Tags
pub mod Reader
pub mod Values
pub mod Topics
pub mod Participants
pub mod Router
pub mod Classes
pub mod Security
pub mod Addresses
