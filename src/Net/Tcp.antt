-- ===== src/Net/Tcp.antt =====
-- TCP (services/net/tcp.go): segments, sequence numbers, the connection and the stack of them.
pub mod Segment
pub mod Conn
pub mod Stack
pub mod Stream
pub mod Invariant
pub mod Teardown
pub mod Receive
pub mod Peers
mod Tests
