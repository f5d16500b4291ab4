-- ===== src/Program.antt =====
-- cmd/keeper/main.go: the connections of the program, its start, and its end.
pub mod Connections
pub mod Start
pub mod Outcome
