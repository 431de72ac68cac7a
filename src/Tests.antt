-- ===== src/Tests.antt =====
-- Runs of the definitions at concrete inputs.
mod Fixtures
mod Queues
mod Configs
mod Requests
mod Events
mod Sources
mod Clients
mod Gateway
mod Server
mod Doubles
mod Commands
mod Reports
