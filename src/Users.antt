-- ===== src/Users.antt =====
-- EdoyumIMServer/UserManager.h and UserManager.cpp: the users and groups, cached from the database,
-- and their relations.
pub mod Types
pub mod Sql
pub mod Manager
pub mod Load
pub mod Friends
pub mod Ordered
pub mod Growing
pub mod Ids
pub mod Updates
pub mod Restart
