-- ===== src/Commands.antt =====
-- internal/commands: the execution of remote commands.
pub mod Alarm
pub mod Silence
pub mod Keycards
pub mod Correlation
pub mod Updates
pub mod Boards
pub mod Targets
pub mod Redis
pub mod Gate
pub mod Names
pub mod Verdicts
pub mod Permitted
pub mod Navigation
pub mod Routes
pub mod Plans
pub mod Locate
pub mod Quiet
