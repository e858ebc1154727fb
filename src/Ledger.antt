-- ===== src/Ledger.antt =====
-- The append-only ledger of a hand: services/game-service/app/domain/ledger.
pub mod HandLedger
pub mod HandReplay
pub mod HandHistory
