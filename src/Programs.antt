-- ===== src/Programs.antt =====
-- The command (cmd/goshield/main.go) and the example programs (examples).
pub mod Literals
pub mod Command
pub mod Settings
pub mod Server
pub mod Observed
pub mod Compose
pub mod Advanced
pub mod Degradation
pub mod Version
