-- ===== src/Frame.antt =====
-- The packages on a connection: TcpSession::Send and the loops of ClientSession::OnRead and
-- FileSession::OnRead.
pub mod Buffer
pub mod Keeping
pub mod Send
pub mod Receive
pub mod Refinement
pub mod Segments
pub mod RoundTrip
