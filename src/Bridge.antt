-- ===== src/Bridge.antt =====
-- communication/DDSBridge.cpp: the tracks between the participants for one topic.
pub mod DdsBridge
pub mod Targets
