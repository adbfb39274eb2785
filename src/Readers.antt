-- ===== src/Readers.antt =====
-- reader/implementations: the readers of the participants.
pub mod Common
pub mod Attributes
pub mod Taking
pub mod Forwarding
