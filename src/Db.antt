-- ===== src/Db.antt =====
-- db/db.go: the connection database, as the statements of db.go act on the tables of
-- assets/schema/flows.sql.
pub mod Select
pub mod Session
pub mod Tables
pub mod Statements
pub mod Consistent
pub mod Grows
pub mod Posts
pub mod Finds
pub mod Runs
pub mod Insert
pub mod Flows
