-- ===== src/FilePath.antt =====
-- The functions of Go's path/filepath that the plugin sources call, as they are on Unix.
pub mod Defs
pub mod Split
pub mod Clean
pub mod Render
pub mod Below
pub mod Joined
unfoldable pub use Defs.*
