-- ===== src/Tests.antt =====
-- Concrete inputs of the theorems, and runs of the definitions.
mod Reporting
mod Buffering
mod Detecting
mod Connecting
mod Commanding
mod Riding
mod Configuring
