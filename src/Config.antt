-- ===== src/Config.antt =====
-- Configuration (internal/config/config.go): the settings, their defaults and presets, the
-- overrides by the environment, the validation, the durations, the struct tags and JSON.
pub mod Types
pub mod Tags
pub mod Defaults
pub mod Validate
pub mod Validity
pub mod Presets
pub mod Override
pub mod Environment
pub mod Durations
pub mod Watcher
pub mod Json
