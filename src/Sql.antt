-- ===== src/Sql.antt =====
-- The queries of backend/internal/store/internal/sqlc, as functions on the tables.
pub mod Users
pub mod Sessions
pub mod Audit
pub mod Mfa
pub mod Codes
pub mod Reset
pub mod Keys
pub mod Directory
pub mod Sorted
pub mod Grid
