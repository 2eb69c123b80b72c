-- ===== src/Jitc.antt =====
-- services/jitc: the decoder of the WebAssembly compiler.
pub mod Cursor
pub mod Leb
pub mod Code
pub mod Items
pub mod Module
pub mod Alu
mod Tests
