-- ===== src/Bulkhead.antt =====
-- The bulkhead, internal/bulkhead/bulkhead.go.
pub mod Core
pub mod Execute
pub mod Crowd
