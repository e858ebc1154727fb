-- ===== src/Domain.antt =====
-- The vocabulary of the game service: enumerations, exceptions, stored rows, rules and the snapshot
-- of a room (services/game-service/app/domain).
pub mod Constants
pub mod Exceptions
pub mod Models
pub mod Rules
pub mod RoomConfig
