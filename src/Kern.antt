-- ===== src/Kern.antt =====
-- guests/lib: the guest library, with its framing, request clients and registry client.
pub mod Frame
pub mod Client
pub mod Registry
mod Tests
