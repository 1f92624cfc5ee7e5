-- ===== src/Db.antt =====
-- internal/db: the rows, the statements of the generated query file over tables, and the connection
-- that carries them.
pub mod Models
pub mod Tables
pub mod Checks
pub mod Inserts
pub mod Selects
pub mod Updates
pub mod Keys
pub mod World
