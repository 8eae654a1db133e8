-- ===== src/Lib.antt =====
-- The headless core of termherd (crates/core): the workspace of tabs and split panes, the registry
-- of live sessions, the state machine over events and effects that keeps the two in step, the
-- keymap, the commands typed into Claude, the sidebar's rows, the links and the opening of files;
-- with the readers of a terminal's output that report a session's activity (crates/claude,
-- crates/pty).
--
-- The program's parts. `App` (crates/core/src/app.rs) holds all state and has one entry point,
-- `apply(event)`, which changes the state and answers the effects for the shell to perform. Its
-- handlers stand in crates/core/src/app/*.rs and work on the `Workspace`
-- (crates/core/src/workspace.rs: a strip of tabs, each a binary tree of panes with a focus path),
-- the `Sessions` registry (crates/core/src/app/session.rs), the user's overlay
-- (crates/core/src/metadata.rs) and the scanned session records (crates/core/src/browser.rs). The
-- shell asks the keymap (crates/core/src/keymap.rs) which action a chord runs. The PTY adapter
-- decodes each chunk of output (crates/claude/src/osc.rs, crates/pty/src/prompt.rs), folds it into
-- a status (crates/pty/src/status.rs) and reports that to `App` as an event.
--
-- The files:
--   Prelude, Text, TextMap: shared helpers, texts as code points, maps keyed by texts.
--   Title: crates/core/src/title.rs, which name a session goes by.
--   Indices: the index arithmetic of workspace.rs.
--   F32: the floating-point ratios of splits, as sign and magnitude in units of 2^-149.
--   Pane: the pane tree and its paths. Pane/Paths, Pane/Cycle, Pane/Moves, Pane/Edits and
--     Pane/Splices have its laws.
--   Tab: one tab.
--   Workspace: the strip; Workspace/Panes: the operations on the panes of a tab. The files below
--     Workspace/ have the laws: Zones and Strip (the two zones of the strip and the active index),
--     Relocate, Tabs, Focus, Valid (the invariant, and which panes an operation adds or takes),
--     Changes, PaneChanges and Titles.
--   Session: a live session and what it runs. Registry: the map of live sessions and the id source.
--   Browser: scanned records grouped by project; Browser/Search: the search and its snippets;
--     Browser/Ages: ages and running times. Metadata: the overlay. Effect: the effects.
--   App: the application's state; App/Retitle, App/Overlays, App/Recorder, App/Lifecycle,
--     App/Closing, App/RepoLink, App/TabViews and App/Dispatch: its handlers, by source file.
--     App/Registered, App/Handlers, App/Closed and App/Reachable: the registry invariant, over
--     every event.
--   App/Dead: sessions that have ended. App/Addressed: whom the effects are about. App/Caps,
--     App/Reopen, App/Screencast: the bounded stack and the frame count. App/Badge, App/RepoPaths:
--     read models.
--   Title/Ranking, Browser/Groups, Metadata/Edits: the laws of those modules.
--   Text/Ascii, Text/Words, Text/Numbers: what the program calls of `str`; Text/Laws, Text/WordLaws
--     and Text/NumberLaws have their laws.
--   Keymap: crates/core/src/keymap.rs. Keymap/Chord: a chord and its parsing, with Reading, Masks
--     and Order; Keymap/Actions: the actions and their table; Keymap/Names: config names, with
--     NameLaws; Keymap/Bindings: defaults, overrides and lookup, with BindingLaws and DefaultLaws.
--   Claude/Color, Claude/Command, Claude/Prompt: crates/claude/src/color.rs,
--     crates/core/src/claude_command.rs, crates/claude/src/prompt.rs; Claude/Typed: what is typed.
--     App/Command: crates/core/src/app/command.rs.
--   Claude/Osc: crates/claude/src/osc.rs, with Scan. Pty/Marks and Pty/Activity:
--     crates/pty/src/prompt.rs and crates/pty/src/status.rs, with Settling and Reports.
--   Open: crates/core/src/open.rs, with Words, Grammar and Safety. Paths: the files that are run when
--     opened, of crates/core/src/paths.rs. Hover and App/Hovering: crates/core/src/app/hover.rs and
--     open.rs beside it, with App/Targets and App/Answers. Pointer: crates/core/src/app/pointer.rs,
--     with Routes.
--   DeepLink: crates/core/src/deeplink.rs, with Refusals. Links: crates/core/src/links.rs, with
--     Spans.
--   App/SidebarRows and App/Visible: crates/core/src/app/sidebar.rs, with App/Rows, App/Shown,
--     App/Ranks, App/Searched, App/Contents, App/Ordered and App/Apart. App/Marks and App/Edits: what
--     the user's edits of the overlay change.
--   App/Alive: the effects of a handler that are about live sessions.
--   Examples, AppExamples, SidebarExamples, ClaudeExamples: the theorems at concrete states.
--
-- How the model corresponds to the code. A method on `&mut self` takes the state and returns it,
-- beside its answer where it has one. `SessionId` is its number. `HashMap` and `HashSet` are lists
-- of entries. The source indexes with `usize`, whose width no operation here can reach; the id
-- source is a `u64` and its overflow is modelled. Where the source would panic on an index out of
-- range the model returns the state as it was. The loops of the source are structural recursion;
-- the descent to a leaf runs on the height of the tree, which bounds its steps. Three loops run on
-- fuel: the parse of a word of the open command, the scan for OSC sequences and the search for
-- URLs, each on the length of what is left, of which every round takes a character at least. A
-- number is written with twenty digits of fuel, which is what a `u64` has. The grapheme clusters of
-- a text (the crate unicode-segmentation) are a parameter, of which it is assumed that a text's
-- clusters joined are the text; `char::is_alphanumeric` and `str::to_lowercase` are two more. A
-- path is its text, and `Path::extension` is that of Unix.
--
-- A workspace is called valid where its parked tabs stand after all others, its active index names
-- a tab, an unparked one where there is one, each tab's focus path ends on a leaf, and each split's
-- ratio is within a tenth and nine tenths.
--
-- Not modelled: the font size, captures, the snapshot and the detection of paths in a row of text;
-- the GUI (crates/app), the processes and terminals of the PTY adapter (crates/pty), the scanner
-- (crates/scan), the MCP server (crates/mcp) and the transcript readers (crates/claude), which do
-- input and output or stand outside this state machine.
pub mod Prelude
pub mod Text
pub mod Title
pub mod Indices
pub mod F32
pub mod Pane
pub mod Tab
pub mod Workspace
pub mod Session
pub mod Browser
pub mod Registry
pub mod TextMap
pub mod Metadata
pub mod Keymap
pub mod Open
pub mod Hover
pub mod Paths
pub mod Links
pub mod Pointer
pub mod Claude
pub mod Pty
pub mod DeepLink
pub mod Effect
pub mod App
pub mod Examples
pub mod AppExamples
pub mod SidebarExamples
pub mod ClaudeExamples
