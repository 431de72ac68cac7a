-- ===== src/Fakes.antt =====
-- internal/testutil/fakes.go: the plugins of the repository's tests, each a state with its counters.
-- A counter has no bound here. `text[:1]` is the first byte of a text, which is its first character
-- if the text is ASCII. UUIDs and the time are arguments.
pub mod Requests
pub mod World
