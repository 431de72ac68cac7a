-- ===== src/Queue.antt =====
-- internal/observability/queue.go: the bounded queue of events and its delivery to the observers.
-- The mutex makes Enqueue and takeBatch atomic, so each is one function on the queue; what other
-- goroutines do between them is the step relation of Queue/Steps, with run and Close that of
-- Queue/Life. `cap`, `batch` and `interval` are positive, since NewQueue replaces every other
-- value. The observers' errors are only logged, and the log is not modelled.
mod Defs
pub mod Overflow
pub mod Kept
pub mod Flush
pub mod Steps
pub mod Life
unfoldable pub use Defs.*
