-- ===== src/Manager.antt =====
-- internal/plugins/manager.go and process.go: the start and the stop of the plugins.
pub mod Process
pub mod Await
pub mod Schema
pub mod Start
pub mod Started
pub mod Running
pub mod Settled
pub mod Stopped
