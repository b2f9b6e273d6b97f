-- ===== src/Session.antt =====
-- EdoyumIMServer/ClientSession.h and ClientSession.cpp: what the server does with a request.
pub mod Json
pub mod World
pub mod Account
pub mod Friend
pub mod Group
pub mod Chat
pub mod Process
pub mod Sending
pub mod Notices
pub mod Login
pub mod Request
pub mod Exchange
pub mod Keeping
pub mod Isolation
pub mod Runs
pub mod Relations
