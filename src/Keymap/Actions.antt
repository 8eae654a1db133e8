-- ===== src/Keymap/Actions.antt =====
-- The actions of the keymap and the table of their names and chords (crates/core/src/keymap.rs).
use termherd.Prelude.{
  ℕ, ◌≡◌, ◌∙◌, sym, refl, arith, Bool, true, ◌&&◌, List, [], ◌∷◌, Option, none, some, ◌==◌,
  get_elem?, unwrap_or,
}
use termherd.Text.{Text}
use termherd.Text.Ascii.{codes}

pub data Action : Type 0 where
  open_new_session close_focused split_horizontal split_vertical focus_next : Action
  focus_prev focus_left focus_right focus_up focus_down : Action
  next_tab prev_tab focus_search toggle_sidebar open_settings : Action
  copy paste copy_agent_name rename_tab open_tab_menu : Action
  send_to_desktop pick_tab_color toggle_park scroll_top scroll_bottom : Action
  new_shell_here new_claude_session_here reopen_closed_tab capture toggle_record : Action
  zoom_in zoom_out zoom_reset : Action
  activate_tab : ℕ → Action

-- The variants without an index, in their order.
abbrev plain_actions : List Action
plain_actions =
    open_new_session ∷ close_focused ∷ split_horizontal ∷ split_vertical ∷ focus_next ∷ focus_prev
    ∷ focus_left ∷ focus_right ∷ focus_up ∷ focus_down ∷ next_tab ∷ prev_tab ∷ focus_search
    ∷ toggle_sidebar ∷ open_settings ∷ copy ∷ paste ∷ copy_agent_name ∷ rename_tab ∷ open_tab_menu
    ∷ send_to_desktop ∷ pick_tab_color ∷ toggle_park ∷ scroll_top ∷ scroll_bottom ∷ new_shell_here
    ∷ new_claude_session_here ∷ reopen_closed_tab ∷ capture ∷ toggle_record ∷ zoom_in ∷ zoom_out
    ∷ zoom_reset ∷ []

-- A number for each variant, and the action of a number and an index.
abbrev pub tag : Action → ℕ
tag open_new_session = 0
tag close_focused = 1
tag split_horizontal = 2
tag split_vertical = 3
tag focus_next = 4
tag focus_prev = 5
tag focus_left = 6
tag focus_right = 7
tag focus_up = 8
tag focus_down = 9
tag next_tab = 10
tag prev_tab = 11
tag focus_search = 12
tag toggle_sidebar = 13
tag open_settings = 14
tag copy = 15
tag paste = 16
tag copy_agent_name = 17
tag rename_tab = 18
tag open_tab_menu = 19
tag send_to_desktop = 20
tag pick_tab_color = 21
tag toggle_park = 22
tag scroll_top = 23
tag scroll_bottom = 24
tag new_shell_here = 25
tag new_claude_session_here = 26
tag reopen_closed_tab = 27
tag capture = 28
tag toggle_record = 29
tag zoom_in = 30
tag zoom_out = 31
tag zoom_reset = 32
tag (activate_tab _) = 33

abbrev pub index_of : Action → ℕ
index_of (activate_tab index) = index
index_of _ = 0

abbrev of_tag : ℕ → ℕ → Action
of_tag t index = unwrap_or (get_elem? plain_actions t) (activate_tab index)

-- `Action: PartialEq`.
unfoldable pub action_eq : Action → Action → Bool
action_eq a b = tag a == tag b && index_of a == index_of b

of_tag-tag : (a : Action) → of_tag (tag a) (index_of a) ≡ a
of_tag-tag open_new_session = refl
of_tag-tag close_focused = refl
of_tag-tag split_horizontal = refl
of_tag-tag split_vertical = refl
of_tag-tag focus_next = refl
of_tag-tag focus_prev = refl
of_tag-tag focus_left = refl
of_tag-tag focus_right = refl
of_tag-tag focus_up = refl
of_tag-tag focus_down = refl
of_tag-tag next_tab = refl
of_tag-tag prev_tab = refl
of_tag-tag focus_search = refl
of_tag-tag toggle_sidebar = refl
of_tag-tag open_settings = refl
of_tag-tag copy = refl
of_tag-tag paste = refl
of_tag-tag copy_agent_name = refl
of_tag-tag rename_tab = refl
of_tag-tag open_tab_menu = refl
of_tag-tag send_to_desktop = refl
of_tag-tag pick_tab_color = refl
of_tag-tag toggle_park = refl
of_tag-tag scroll_top = refl
of_tag-tag scroll_bottom = refl
of_tag-tag new_shell_here = refl
of_tag-tag new_claude_session_here = refl
of_tag-tag reopen_closed_tab = refl
of_tag-tag capture = refl
of_tag-tag toggle_record = refl
of_tag-tag zoom_in = refl
of_tag-tag zoom_out = refl
of_tag-tag zoom_reset = refl
of_tag-tag (activate_tab i) = refl

pub action_eq_sound : (a b : Action) → action_eq a b ≡ true → a ≡ b
unfolding action_eq
action_eq_sound a b h =
    let e : tag a ≡ tag b = ground arith in
    let k : index_of a ≡ index_of b = ground arith in
    sym (of_tag-tag a) ∙ rw (e, k) refl ∙ of_tag-tag b

pub data Platform : Type 0 where
  mac_os windows linux : Platform

pub record ActionDef : Type 0 where
  pub action : Action
  pub name : Text
  pub chords : List Text
  pub off_mac : Option (List Text)
  pub on_windows : Option (List Text)

-- `ActionDef::new`, and the setters of the other platforms' chords.
abbrev pub def : Action → Text → List Text → ActionDef
def action name chords = record {
  action = action;
  name = name;
  chords = chords;
  off_mac = none;
  on_windows = none;
}

abbrev pub with_off_mac : ActionDef → List Text → ActionDef
with_off_mac d more = record d { off_mac = some more }

abbrev pub with_windows : ActionDef → List Text → ActionDef
with_windows d more = record d { on_windows = some more }

abbrev pub chords_for : ActionDef → Platform → List Text
chords_for d mac_os = d.chords
chords_for d windows = unwrap_or d.on_windows (unwrap_or d.off_mac d.chords)
chords_for d linux = unwrap_or d.off_mac d.chords

abbrev pub actions : List ActionDef
actions =
    def open_new_session (codes "open-new-session") []
    ∷ with_off_mac (def close_focused (codes "close-focused") (codes "mod+w" ∷ []))
        (codes "ctrl+shift+w" ∷ [])
    ∷ with_off_mac (def split_horizontal (codes "split-horizontal") (codes "mod+shift+d" ∷ []))
        (codes "alt+shift+-" ∷ codes "alt+shift+d" ∷ [])
    ∷ with_off_mac (def split_vertical (codes "split-vertical") (codes "mod+d" ∷ []))
        (codes "alt+shift+=" ∷ [])
    ∷ def focus_next (codes "focus-next") []
    ∷ def focus_prev (codes "focus-prev") []
    ∷ def focus_left (codes "focus-left") (codes "mod+shift+left" ∷ [])
    ∷ def focus_right (codes "focus-right") (codes "mod+shift+right" ∷ [])
    ∷ def focus_up (codes "focus-up") (codes "mod+shift+up" ∷ [])
    ∷ def focus_down (codes "focus-down") (codes "mod+shift+down" ∷ [])
    ∷ def next_tab (codes "next-tab") (codes "ctrl+tab" ∷ [])
    ∷ def prev_tab (codes "prev-tab") (codes "ctrl+shift+tab" ∷ [])
    ∷ with_off_mac (def focus_search (codes "focus-search") (codes "mod+f" ∷ []))
        (codes "ctrl+shift+f" ∷ [])
    ∷ with_off_mac (def toggle_sidebar (codes "toggle-sidebar") (codes "mod+b" ∷ []))
        (codes "ctrl+shift+b" ∷ [])
    ∷ def open_settings (codes "open-settings") (codes "mod+," ∷ [])
    ∷ with_off_mac (def copy (codes "copy") (codes "mod+c" ∷ [])) (codes "ctrl+shift+c" ∷ [])
    ∷ with_windows
        (with_off_mac (def paste (codes "paste") (codes "mod+v" ∷ [])) (codes "ctrl+shift+v" ∷ []))
        (codes "ctrl+shift+v" ∷ codes "ctrl+v" ∷ [])
    ∷ def copy_agent_name (codes "copy-agent-name") []
    ∷ def send_to_desktop (codes "send-to-desktop") []
    ∷ def pick_tab_color (codes "pick-tab-color") []
    ∷ def toggle_park (codes "toggle-park-tab") []
    ∷ with_off_mac (def scroll_top (codes "scroll-top") (codes "mod+up" ∷ []))
        (codes "ctrl+shift+home" ∷ [])
    ∷ with_off_mac (def scroll_bottom (codes "scroll-bottom") (codes "mod+down" ∷ []))
        (codes "ctrl+shift+end" ∷ [])
    ∷ with_off_mac (def new_shell_here (codes "new-shell-here") (codes "mod+t" ∷ []))
        (codes "ctrl+shift+t" ∷ [])
    ∷ def rename_tab (codes "rename-tab") (codes "mod+shift+i" ∷ [])
    ∷ def open_tab_menu (codes "open-tab-menu") (codes "mod+shift+m" ∷ [])
    ∷ def new_claude_session_here (codes "new-claude-session-here") (codes "mod+alt+t" ∷ [])
    ∷ with_off_mac (def reopen_closed_tab (codes "reopen-closed-tab") (codes "mod+shift+t" ∷ []))
        (codes "ctrl+alt+shift+t" ∷ [])
    ∷ def capture (codes "capture") (codes "mod+shift+s" ∷ [])
    ∷ def toggle_record (codes "toggle-record") (codes "mod+shift+r" ∷ [])
    ∷ def zoom_in (codes "zoom-in") (codes "mod+=" ∷ codes "mod+shift+=" ∷ codes "mod+plus" ∷ [])
    ∷ def zoom_out (codes "zoom-out") (codes "mod+-" ∷ [])
    ∷ def zoom_reset (codes "zoom-reset") (codes "mod+0" ∷ [])
    ∷ []
