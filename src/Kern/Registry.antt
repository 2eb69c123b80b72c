-- ===== src/Kern/Registry.antt =====
-- The clients of the kernel endpoints "registry" and "devman" (guests/lib/registry.go).
pub mod Replies
pub mod Payloads
pub mod Calls
pub mod Decode
