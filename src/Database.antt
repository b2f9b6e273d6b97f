-- ===== src/Database.antt =====
-- The database access: EdoyumIMServer/Field.cpp, QueryResult.cpp, mysqltool.cpp and MySqlManager.cpp.
pub mod Client
pub mod Cursor
pub mod Loading
pub mod Rows
pub mod Refinement
pub mod Tool
pub mod Tables
pub mod Schema
pub mod Stuck
