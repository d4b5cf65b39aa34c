-- ===== src/Client.antt =====
-- The client for browsers and devices: packages/js-client-core/src/
pub mod Types
pub mod Watchers
pub mod CachedValues
pub mod CachedEntry
pub mod CachedStore
pub mod Plan
pub mod Emitter
pub mod Session
pub mod Polling
pub mod Offline
pub mod State
pub mod Evaluating
pub mod Handling
pub mod Steps
pub mod Frame
pub mod History
pub mod Notify
pub mod Ready
pub mod Removed
pub mod Tests
pub mod PartTests
pub mod OfflineTests
