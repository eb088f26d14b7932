-- ===== src/EventBus.antt =====
-- pkg/eventbus: topics and their subscribers, the channels, and the dispatch of events.
pub mod Matcher
pub mod Bus
pub mod System
pub mod Ending
pub mod Consumers
