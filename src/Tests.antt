-- ===== src/Tests.antt =====
-- Tests of the model on concrete values, and an application of each theorem to such values.
mod Values
mod Routers
mod Services
mod Payloads
mod Tracks
mod Discoveries
mod Topics
mod Names
mod Participants
mod Yaml
mod Writers
mod Readers
