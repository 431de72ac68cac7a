-- ===== src/Rpc.antt =====
-- internal/plugins/rpc.go: the client of one plugin over net/rpc.
pub mod Wire
pub mod Client
pub mod Dialed
pub mod Methods
pub mod Attempts
pub mod Pool
pub mod Streams
