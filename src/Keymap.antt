-- ===== src/Keymap.antt =====
-- The keymap: actions, their names and default chords (crates/core/src/keymap.rs).
pub mod Actions
pub mod Bindings
pub mod BindingLaws
pub mod Chord
pub mod DefaultLaws
pub mod NameLaws
pub mod Names
