-- ===== src/EventService.antt =====
-- src/ocp/eventservice/controller.go: events are collected for a short time and leave together.
pub mod Publisher
pub mod Timer
pub mod History
pub mod Repeats
