-- ===== src/Config.antt =====
-- internal/config: the configuration, its durations, its defaults and its validation.
mod Types
pub mod Duration
pub mod Defaults
pub mod Validate
pub mod Valid
pub mod Loaded
pub use Types.*
