-- ===== src/Claude.antt =====
-- What termherd types into Claude Code, and what it reads of its prompt (crates/claude/src,
-- crates/core/src/claude_command.rs).
pub mod Color
pub mod Command
pub mod Osc
pub mod Prompt
pub mod Typed
