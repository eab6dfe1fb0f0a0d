-- ===== src/Metrics.antt =====
-- Metrics (internal/metrics): samples, the collectors of the patterns, the registry and histograms.
pub mod Sample
pub mod Collectors
pub mod Names
pub mod Typing
pub mod Registry
pub mod Histogram
pub mod Labels
pub mod Exposition
