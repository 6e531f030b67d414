-- ===== src/Tests.antt =====
-- Runs on concrete inputs, with the fixed-point numbers of `Common.Fixed`.
pub mod Fixtures
mod Execution
mod Cycles
mod Probing
mod Sessions
mod Signals
mod Models
mod Alerts
mod Packages
mod Wallet
mod Feeds
mod Storage
