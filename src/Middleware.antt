-- ===== src/Middleware.antt =====
-- The middleware of src/middleware.
pub mod LockEnforce
