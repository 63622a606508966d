-- ===== src/Sql.antt =====
-- The statements of internal/platform/postgres/sqlc on the tables of migrations/.
pub mod Tables
pub mod Runs
pub mod Recurring
pub mod Records
pub mod Users
