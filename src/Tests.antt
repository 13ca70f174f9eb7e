-- ===== src/Tests.antt =====
-- Tests of the models at concrete inputs, and the theorems at inputs that meet their hypotheses.
mod Addresses
mod UdpServer
mod TcpServer
mod Frames
mod Codes
mod Codec
mod TcpClient
mod UdpClient
mod Tasks
mod Opening
mod TcpLink
mod TcpCalls
mod Registration
