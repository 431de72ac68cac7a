-- ===== src/Pipeline.antt =====
-- internal/pipeline: compiling the configured pipeline, and running a chat request through it.
pub mod Platform
pub mod Exec
pub mod State
pub mod Props
pub mod Compile
pub mod Events
pub mod Collect
pub mod Attempts
pub mod Stream
pub mod Stages
pub mod Chat
pub mod Post
pub mod Total
pub mod Readiness
pub mod CacheKey
pub mod Outcomes
pub mod Carried
pub mod Answers
pub mod Served
pub mod Routed
pub mod Headers
pub mod Relays
pub mod Collects
pub mod Trace
pub mod TraceRules
pub mod Protocol
pub mod Tries
pub mod Sends
pub mod Sent
pub mod Told
pub mod Streamed
pub mod Lifetime
pub mod Reported
pub mod Holds
pub mod Spared
pub mod Unserved
