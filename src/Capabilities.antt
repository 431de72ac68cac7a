-- ===== src/Capabilities.antt =====
-- internal/capabilities/types.go, with the error values that go with it: the types that the
-- gateway's components share.
mod Chat
mod Calls
mod Errors
mod Providers
pub use Chat.*
pub use Calls.*
unfoldable pub use Errors.*
pub use Providers.*
