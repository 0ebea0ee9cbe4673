-- ===== src/Events.antt =====
-- custom_components/doorfast/events.py: validation, ordering and processing of push events.
pub mod Gate
pub mod Validate
pub mod Process
