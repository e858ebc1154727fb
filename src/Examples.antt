-- ===== src/Examples.antt =====
-- Concrete tables, and the theorems at them.
mod Tables
mod Betting
mod Settlement
mod Hands
mod Sessions
mod TableRuns
mod Rooms
mod Scenarios
