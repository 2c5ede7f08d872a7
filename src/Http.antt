-- ===== src/Http.antt =====
-- backend/internal/api: the decisions that the HTTP middleware makes before a handler runs.
pub mod ClientIp
pub mod Rbac
mod Tests
