-- ===== src/Udp.antt =====
-- src/udp: the UDP rendezvous.
pub mod Datagrams
pub mod Client
pub mod Listener
pub mod Sockets
pub mod Connector
pub mod Server
pub mod Registration
