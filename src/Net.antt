-- ===== src/Net.antt =====
-- net: the TCP side of the package.
pub mod Stream
pub mod Packet
pub mod Connection
pub mod Client
pub mod Server
pub mod Address
pub mod Http
pub mod Api
mod Tests
