-- ===== src/Writers.antt =====
-- writer/implementations: the writers of the participants.
pub mod Common
pub mod Attributes
pub mod Multi
pub mod History
pub mod Enabled
