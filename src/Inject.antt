-- ===== src/Inject.antt =====
-- src/redfishresource/internal_commands.go: events that other programs inject, and how they reach the
-- event bus.
pub mod Queue
pub mod Sorting
pub mod Order
pub mod Progress
pub mod Trains
