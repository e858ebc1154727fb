-- ===== src/Room.antt =====
-- The room service: services/room-service/app. A room is its row with its players, its blind levels and
-- the events that wait in the outbox; a command is a function on them. What a command draws (`uuid4()`,
-- the characters of a code) is an argument, and so is Python's `str.upper`.
pub mod Models
pub mod Repository
pub mod SeatHelpers
pub mod Commands
pub mod Sound
pub mod Laws
pub mod Settled
pub mod Seating
pub mod Codes
