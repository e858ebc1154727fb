-- ===== src/Engine.antt =====
-- The pure engine of a hand: services/game-service/app/domain/engine.
pub mod Validator
pub mod TurnEngine
pub mod ActionPipeline
pub mod BlindPosting
pub mod Positions
pub mod StreetProgression
pub mod SidePots
pub mod PayoutValidation
pub mod TableRuntime
