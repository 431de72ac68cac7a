-- ===== src/Plugins.antt =====
-- internal/plugins: the registry of plugin instances, and where their executables come from.
pub mod Registry
pub mod Register
pub mod Granted
pub mod Archive
pub mod SafeJoin
pub mod Confined
pub mod Sources
pub mod Download
pub mod Checked
pub mod Pinned
pub mod CacheDir
