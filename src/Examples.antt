-- ===== src/Examples.antt =====
-- The theorems applied to small workspaces and trees.
use termherd.Prelude.{
  none, false, length, ◌==◌, if◌then◌else◌, ◌≤◌, ◌<◌, ◌≡◌, refl, true, List, [], ◌∷◌, ◌++◌, some,
  arith, ◌⊎◌, get_elem?,
}
use termherd.F32.{finite, half, tenth, nine_tenths}
use termherd.Indices
use termherd.Indices.{next, index_after, shift_index}
use termherd.Pane
use termherd.Pane.{SessionId, vertical, horizontal, Branch, a, b, Pane, leaf, split, navigate}
use termherd.Pane.Paths.{OnLeaf}
use termherd.Pane.Edits.{pane_count}
use termherd.Pane.Moves
use termherd.Tab.{Tab, new_tab}
use termherd.Workspace
use termherd.Workspace.{Workspace}
use termherd.Workspace.Panes
use termherd.Workspace.Focus
use termherd.Workspace.Relocate
use termherd.Workspace.Tabs
use termherd.Workspace.Tabs.{one}
use termherd.Workspace.Valid.{IsValid, Change, Keeps, nobody, total}
use termherd.Workspace.Changes
use termherd.Workspace.PaneChanges
use termherd.App.{new_app}
use termherd.App.Dispatch
use termherd.App.Registered.{IsRegistered}
use termherd.App.Reachable
use termherd.Session.{LaunchSpec, shell, foreground}

-- Two panes side by side, the right one over a third.
abbrev three : Pane
three =
    split vertical (finite false half) (leaf 1)
      (split horizontal (finite false half) (leaf 2) (leaf 3))

-- A tab opened, then another.
abbrev one_tab : Workspace
one_tab = Workspace.open_tab Workspace.new 1 (97 ∷ [])

abbrev two_tabs : Workspace
two_tabs = Workspace.open_tab one_tab 2 (98 ∷ [])

two_tabs-IsValid : IsValid two_tabs
two_tabs-IsValid =
    (Changes.open_tab-Change one_tab
      (Changes.open_tab-Change Workspace.new Changes.new-IsValid 1 (97 ∷ [])).valid 2
      (98 ∷ [])).valid

two_tabs_first : get_elem? two_tabs.tabs 0 ≡ some (new_tab 1 (97 ∷ []))
unfolding Workspace.open_tab Workspace.append Workspace.insert_tab Workspace.first_parked new_tab
two_tabs_first = refl

two_tabs_second : get_elem? two_tabs.tabs two_tabs.active ≡ some (new_tab 2 (98 ∷ []))
unfolding Workspace.open_tab Workspace.append Workspace.insert_tab Workspace.first_parked new_tab
two_tabs_second = refl

two_tabs_length : length two_tabs.tabs ≡ 2
unfolding Workspace.open_tab Workspace.append Workspace.insert_tab Workspace.first_parked new_tab
two_tabs_length = refl

launch_spec : LaunchSpec
launch_spec = record { cwd = none; launch = shell; title = 97 ∷ []; placement = foreground }

run-IsRegistered_example : IsRegistered (
    Reachable.run new_app (
      Dispatch.launch_session launch_spec
      ∷ Dispatch.split_focused_event vertical
      ∷ Dispatch.close_pane 1
      ∷ []))
run-IsRegistered_example = Reachable.run-IsRegistered (
    Dispatch.launch_session launch_spec
    ∷ Dispatch.split_focused_event vertical
    ∷ Dispatch.close_pane 1
    ∷ [])

close_tab-Change_example :
    Change two_tabs
      (Workspace.close_tab two_tabs 0).0
      (pane_count (new_tab 1 (97 ∷ [])).root)
      nobody
close_tab-Change_example = Changes.close_tab-Change two_tabs two_tabs-IsValid 0 _ two_tabs_first

split_focused-Change_example :
    ((Panes.split_focused two_tabs vertical 3).1 ≡ some tt)
    × Change two_tabs (Panes.split_focused two_tabs vertical 3).0 nobody (one 3)
    × (Panes.focused_session (Panes.split_focused two_tabs vertical 3).0 ≡ some 3)
split_focused-Change_example =
    PaneChanges.split_focused-Change two_tabs two_tabs-IsValid vertical 3 _ two_tabs_second

close_focused-Change_example :
    (removed : SessionId) × (Panes.focused_session two_tabs ≡ some removed)
    × ((Panes.close_focused two_tabs).1 ≡ some removed)
    × Change two_tabs (Panes.close_focused two_tabs).0 (one removed) nobody
close_focused-Change_example =
    PaneChanges.close_focused-Change two_tabs two_tabs-IsValid _ two_tabs_second

two_tabs_total : 0 < total two_tabs.tabs 1
unfolding Workspace.open_tab Workspace.append Workspace.insert_tab Workspace.first_parked new_tab
    total pane_count
two_tabs_total = omega arith

close_pane_of-Change_example :
    ((Panes.close_pane_of two_tabs 1).1 ≡ some 1)
    × Change two_tabs (Panes.close_pane_of two_tabs 1).0 (one 1) nobody
close_pane_of-Change_example =
    PaneChanges.close_pane_of-Change two_tabs two_tabs-IsValid 1 two_tabs_total

set_split_ratio-Keeps_example :
    Keeps two_tabs (Panes.set_split_ratio two_tabs 0 [] (finite false nine_tenths)).0
set_split_ratio-Keeps_example =
    PaneChanges.set_split_ratio-Keeps two_tabs two_tabs-IsValid 0 [] (finite false nine_tenths)

get_elem?-relocate_example :
    get_elem? (Workspace.relocate two_tabs 0 1 true).tabs (shift_index 1 0 1) ≡ (
      if 1 == 0
      then some (record (new_tab 1 (97 ∷ [])) { parked = true })
      else get_elem? two_tabs.tabs 1)
get_elem?-relocate_example =
    Relocate.get_elem?-relocate two_tabs 0 1 true (new_tab 1 (97 ∷ [])) 1 two_tabs_first
      (omega (arith, two_tabs_length))

focus_of_three : OnLeaf three (b ∷ a ∷ [])
unfolding navigate
focus_of_three = (2, refl)

cycled_path-back_example :
    (path : List Branch) × (Panes.cycled_path three (b ∷ a ∷ []) next ≡ some path)
    × OnLeaf three path
    × (Panes.cycled_path three path (Indices.back next) ≡ some (b ∷ a ∷ []))
cycled_path-back_example = Focus.cycled_path-back three (b ∷ a ∷ []) next focus_of_three

abbrev split_tab_of_three : Tab
split_tab_of_three = record (new_tab 1 (97 ∷ [])) { root = three; focus = b ∷ a ∷ [] }

half_within : (tenth ≤ half) × (half ≤ nine_tenths)
half_within = (omega arith, omega arith)

split_tab_of_three-TabOk : Tabs.TabOk split_tab_of_three
split_tab_of_three-TabOk = record {
  focused = focus_of_three;
  ratios = (half_within, tt, (half_within, tt, tt));
}

two_below : navigate three ((b ∷ []) ++ a ∷ []) ≡ some (leaf 2)
unfolding navigate
two_below = refl

collapse-PaneClosed_example :
    (root' : Pane) × (Panes.collapse three (b ∷ []) a 2 ≡ some root')
    × Tabs.PaneClosed split_tab_of_three 2 (b ∷ []) a root'
collapse-PaneClosed_example =
    Tabs.collapse-PaneClosed split_tab_of_three (b ∷ []) a 2 split_tab_of_three-TabOk two_below

leftward : Panes.directed_path three (b ∷ a ∷ []) Pane.left ≡ some (a ∷ [])
unfolding Panes.directed_path Pane.step_across Pane.step_across_below Pane.crosses Pane.edge_leaf
    Pane.descend_edge Pane.descend Pane.height Pane.ancestor_is navigate Pane.axis_toward
    Pane.opposite Pane.is_split
leftward = refl

directed_path-Across_example :
    Moves.Across three
      (b ∷ a ∷ [])
      (Pane.axis_toward Pane.left).0
      (Pane.axis_toward Pane.left).1
      (a ∷ [])
    ⊎ Moves.Wrapped three
        (b ∷ a ∷ [])
        (Pane.axis_toward Pane.left).0
        (Pane.axis_toward Pane.left).1
        (a ∷ [])
directed_path-Across_example =
    Focus.directed_path-Across three (b ∷ a ∷ []) Pane.left (a ∷ []) leftward
