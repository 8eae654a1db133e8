-- ===== src/Pty.antt =====
-- The PTY adapter's own logic (crates/pty/src): the marks of a shell, the activity of a session and
-- the mouse.
pub mod Activity
pub mod Marks
pub mod Reports
pub mod Settling
