-- ===== src/Connection.antt =====
-- internal/connection: the authenticated connection to the cloud, its queues and its reconnects.
pub mod State
pub mod Sends
pub mod Loops
pub mod Live
pub mod Lifecycle
pub mod Fifo
pub mod Accounting
pub mod Steady
pub mod Phases
pub mod Backoff
pub mod LiveOrder
pub mod LiveWake
pub mod LiveGuards
