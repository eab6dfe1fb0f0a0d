-- ===== src/Middleware.antt =====
-- HTTP middleware, pkg/middleware/middleware.go.
pub mod Http
pub mod Recorder
pub mod Guards
pub mod Retry
pub mod Chain
pub mod Refusals
pub mod Nested
