-- ===== src/Filters.antt =====
-- The topic filters: WildcardDdsFilterTopic.cpp, DdsFilterTopic.cpp and dynamic/AllowedTopicList.cpp.
pub mod Wildcard
pub mod AllowedList
pub mod Repetition
pub mod Serialization
