-- ===== src/Net/Tcp/Conn.antt =====
-- One connection endpoint, `TCPConn` of services/net/tcp.go. A method that changes the connection
-- returns the new one; every method holds the connection's lock from start to end. What the
-- connection hands to `Stack.SendTCPSegment` is kept in order in `sent`.
pub mod Outbound
pub mod Inbound
pub mod Flush
unfoldable pub use Outbound.*
unfoldable pub use Inbound.*
