-- ===== src/Reporting.antt =====
-- Reports on a hand: services/game-service/app/domain/reporting.
pub mod SettlementExplainer
