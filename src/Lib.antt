-- ===== src/Lib.antt =====
-- A model of the game service and the room service of a poker back end, and what holds of it.
--
-- The program (services/game-service/app) runs a poker table by commands. A command loads the rows of
-- a game or a hand, calls the engine, which is pure, writes the rows and an entry of the hand's
-- ledger, and leaves an event in an outbox. The room service (services/room-service/app) keeps the
-- rooms that games are started in; the game service reads a room once, over HTTP, and then plays from
-- its own snapshot. The parts and their files:
--   Domain/            domain/constants.py, exceptions.py, rules.py, models.py and
--                      integration/room_adapter.py: enumerations, errors, rows, the room's snapshot
--   Engine/Validator         domain/engine/validator.py: `validate_bet`
--   Engine/TurnEngine        domain/engine/turn_engine.py: `next_to_act`
--   Engine/ActionPipeline    domain/engine/action_pipeline.py: `apply_action`
--   Engine/BlindPosting      domain/engine/blind_posting.py: `post_blinds_and_antes`
--   Engine/SidePots          domain/engine/side_pots.py: `calculate_side_pots`
--   Engine/Positions         domain/engine/positions.py: `assign_positions`, `rotate_positions`
--   Engine/StreetProgression domain/engine/street_progression.py: `evaluate_street_end`
--   Engine/PayoutValidation  domain/engine/payout_validation.py
--   Engine/TableRuntime      domain/engine/table_runtime.py: seats, session, blind clock
--   Ledger/HandLedger        domain/ledger/hand_ledger.py: `rebuild_hand_state`
--   Ledger/HandReplay        domain/ledger/hand_replay.py: `replay_hand`, `verify_consistency`
--   Ledger/HandHistory       domain/ledger/hand_history.py: `build_hand_timeline`
--   Application/Rows         application/action_helpers.py, the rows of one hand
--   Application/PlaceBet     application/commands/bet_command_service.py: `place_bet`, and
--                            `cas_update_round` of
--                            infrastructure/repositories/round_state_repository.py
--   Application/StartRound   application/commands/game_command_service.py: `start_round`
--   Application/StreetCommands  application/commands/game_command_service.py: `advance_street`
--   Application/ResolveHand  application/commands/game_command_service.py: `resolve_hand`,
--                            `declare_winner`
--   Application/GameCommands application/commands/game_command_service.py: `start_game`,
--                            `advance_blinds`, `end_game`
--   Application/HandCompletion  application/hand_completion.py
--   Application/Snapshot     infrastructure/room_config.py: the snapshot of a room
--   Application/TableCommands  application/commands/table_runtime_command_service.py
--   Application/Corrections  application/commands/correction_command_service.py: `reverse_action`,
--                            `adjust_stack`, `reopen_hand`, `correct_payout`
--   Application/Consistency, Application/Play, Application/Session  what the rows keep, the hands that
--                            the commands reach, and the sequences of hands of a game
--   Scenario                 domain/scenario_runner.py: a hand as a script, with the relation that plays
--                            it in Scenario/Script
--   Reporting/SettlementExplainer  domain/reporting/settlement_explainer.py
--   Room/                    services/room-service/app: domain/models.py, the repositories,
--                            application/seat_helpers.py and the two command services
--   Prelude/           integers, lists, sums and sorting as Python has them
--   Examples/          concrete tables and runs
-- Paths without services/ are below services/game-service/app. A function keeps its name and a class
-- its fields.
--
-- Python's integers are the unbounded ℤ of Prelude/Int. An exception is the value `err e` of
-- `Result`. A command is a function from the rows that it loads to the rows that it leaves; the
-- identifiers that it draws and the version that another transaction may have stored meanwhile are
-- arguments. Python's `str.upper` is a parameter. A dictionary is an association list in the order of
-- insertion. Times are whole microseconds.
--
-- Every loop is a structural recursion over a list, but for the loop of `next_to_act`, which counts
-- down the number of eligible seats, as `range` does; Engine/TurnEngine/Rotation shows that this walks
-- over each of them once. The only fuel is the 100 attempts of `generate_unique_code`, which are the
-- source's own.
--
-- Not modelled: the auth, user and gateway services; HTTP, the database and the outbox worker, which are
-- input and output; the queries and mappers, which copy rows into responses; the lines of text of an
-- explained settlement; `created_at` and surrogate keys. The answers of the room
-- service to the game service are arguments of the commands.
pub mod Application
pub mod Domain
pub mod Engine
pub mod Examples
pub mod Ledger
pub mod Prelude
pub mod Reporting
pub mod Room
pub mod Scenario
