-- ===== src/Db.antt =====
-- src/db and the two models: the tables, the transaction that a request works in, and the monad
-- of the asynchronous code.
pub mod Tables
pub mod World
pub mod Rows
pub mod Act
pub mod Sessions
