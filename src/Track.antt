-- ===== src/Track.antt =====
-- communication/Track.cpp: the forwarding of the data of one reader to the writers.
pub mod Machine
pub mod Order
pub mod Guard
pub mod Wakeup
pub mod Stuck
