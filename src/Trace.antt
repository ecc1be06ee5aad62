-- ===== src/Trace.antt =====
-- The spans that the backend returns: web/src/types.
pub mod Span
pub mod Attributes
