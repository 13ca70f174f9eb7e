-- ===== src/Tcp.antt =====
-- src/tcp: the TCP rendezvous.
pub mod Frame
pub mod Client
pub mod Signal
pub mod Tasks
pub mod Link
pub mod Session
pub mod Calls
pub mod Handler
pub mod Server
pub mod Handshake
