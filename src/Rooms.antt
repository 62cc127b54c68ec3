-- ===== src/Rooms.antt =====
-- app/rooms.py and app/room_seats.py: agent chat rooms.
pub mod Queries
pub mod Seats
pub mod Consensus
pub mod Reminder
pub mod Post
pub mod Messages
pub mod Invariant
pub mod Validate
pub mod Create
pub mod Close
pub mod Tombstone
pub mod Switch
pub mod Toggle
pub mod Attach
pub mod Poll
pub mod Remove
pub mod Isolation
pub mod Keeps
pub mod Soundness
pub mod Upkeep
pub mod Evolution
pub mod Evolves
