-- ===== src/Application.antt =====
-- The commands on a hand: services/game-service/app/application/commands. A command reads the rows of
-- one round, calls the engine and writes the rows back in one transaction; the rows and the values
-- of `uuid4()` and of the clock are arguments.
pub mod Rows
pub mod Consistency
pub mod PlaceBet
pub mod StreetCommands
pub mod StartRound
pub mod Corrections
pub mod HandCompletion
pub mod Snapshot
pub mod ResolveHand
pub mod GameCommands
pub mod TableCommands
pub mod Play
pub mod Session
