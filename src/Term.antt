-- ===== src/Term.antt =====
-- The text terminal of services/display/terminal/term.go.
pub mod Cells
pub mod Number
pub mod Screen
pub mod Erase
pub mod Control
pub mod Parser
mod Tests
