-- ===== src/Models.antt =====
-- internal/models/registry.go: the logical models of the configuration, and their candidates.
mod Defs
pub mod Lookup
unfoldable pub use Defs.*
