-- ===== src/Files.antt =====
-- The file server: EdoyumIMServer/FileServer/FileSession.cpp, FileManager.cpp and FileServer.cpp.
pub mod Api
pub mod Manager
pub mod Transfer
pub mod Process
pub mod Service
pub mod Storage
pub mod Writing
pub mod Parts
pub mod Upload
pub mod Wire
pub mod Cut
pub mod Pieces
pub mod Asking
pub mod Download
pub mod Fetch
pub mod RoundTrip
pub mod Names
pub mod Isolation
pub mod Mishaps
pub mod Replies
pub mod Run
pub mod Runs
pub mod Exchange
