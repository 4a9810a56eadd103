-- ===== src/Httpapi.antt =====
-- internal/httpapi: what stands around the store.
pub mod RateLimit
