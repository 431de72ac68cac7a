-- ===== src/Secrets.antt =====
-- internal/secrets: references to secrets in the configuration of a plugin, and their resolution.
mod Defs
pub mod Scope
pub mod Reference
unfoldable pub use Defs.*
