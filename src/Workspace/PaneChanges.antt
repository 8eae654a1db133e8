-- ===== src/Workspace/PaneChanges.antt =====
-- What each operation on the panes changes: which panes go and come, and that the workspace stays
-- valid.
use termherd.Prelude.{
  ℕ, ◌<◌, ◌≡◌, refl, ap, subst, inl, inr, List, [], ◌∷◌, Option, none, some, arith, Option-cases,
  Bool-cases, find_idx, get_elem?, find_idx_holds, lt-length_of_get_elem?, get_elem?-set,
}
use termherd.F32.{F32, is_finite}
use termherd.Indices.{Step}
use termherd.Pane.{SessionId, SplitDir, Direction, Branch, Pane, leaf, navigate}
use termherd.Pane.Paths.{OnLeaf}
use termherd.Pane.Edits.{pane_count, pane_hosts-pane_count, leaf_path_of-counted}
use termherd.Tab
use termherd.Tab.{Tab}
use termherd.Workspace.{Workspace, tab_of, activate}
use termherd.Workspace.Panes.{
  split_focused, set_ratio_at, set_split_ratio, focused_session, pop, close_leaf, close_focused,
  close_pane_of, refocus_active, cycle_focus, focus_pane_of, reveal_pane_of, focus_dir,
}
use termherd.Workspace.Tabs.{
  one, split_tab-TabOk, set_ratio_at-TabOk, pop-append, pop-nil, collapse-PaneClosed,
}
use termherd.Workspace.Focus.{cycled_path-OnLeaf, directed_path-OnLeaf, find-ends_on}
use termherd.Workspace.Valid.{
  IsValid, Change, Keeps, set-Change, nobody, unchanged, AllOk-get_elem?, total, total-erase_idx,
}
use termherd.Workspace.Changes.{close_tab-Change, activate-Keeps}

root_is_leaf :
    (root : Pane) (s : SessionId) (path : List Branch)
    → path ≡ []
    → navigate root path ≡ some (leaf s)
    → root ≡ leaf s
unfolding navigate
root_is_leaf root s [] e h = ground arith
root_is_leaf root s (_ ∷ _) e h = cc

-- The tab found for a session hosts it; none is found only where no pane does.
tab_of-some :
    (w : Workspace) (session : SessionId) (index : ℕ)
    → tab_of w session ≡ some index
    → (tab : Tab) × (get_elem? w.tabs index ≡ some tab) × (0 < pane_count tab.root session)
unfolding tab_of Tab.hosts
tab_of-some w session index h =
    let (tab, e, hosted) = find_idx_holds (λ tab. Tab.hosts tab session) w.tabs index h in
    (tab, e, ground (arith, pane_hosts-pane_count tab.root session))

total-none :
    (tabs : List Tab) (session : SessionId)
    → find_idx (λ tab. Tab.hosts tab session) tabs ≡ none
    → total tabs session ≡ 0
unfolding total Tab.hosts
total-none [] session h = refl
total-none (t ∷ ts) session h =
    ground (arith, pane_hosts-pane_count t.root session, total-none ts session)

pub tab_of-none :
    (w : Workspace) (session : SessionId) → tab_of w session ≡ none → total w.tabs session ≡ 0
unfolding tab_of
tab_of-none w session h = total-none w.tabs session h

module _ (w : Workspace) (v : IsValid w) where
  -- In a valid workspace with an active tab, splitting the focused pane succeeds, leaves a valid
  -- workspace that hosts one more pane, of the new session, and puts the focus on that session.
  pub split_focused-Change :
      (dir : SplitDir) (session : SessionId) (tab : Tab)
      → get_elem? w.tabs w.active ≡ some tab
      → ((split_focused w dir session).1 ≡ some tt)
        × Change w (split_focused w dir session).0 nobody (one session)
        × (focused_session (split_focused w dir session).0 ≡ some session)
  unfolding split_focused focused_session
  split_focused-Change dir session tab h =
      let (tab', e, ok, focused, counts, same) =
        split_tab-TabOk tab dir session (AllOk-get_elem? w.tabs w.active tab v.tabs_ok h) in
      let lt = lt-length_of_get_elem? w.tabs w.active h in
      (
        rw (h, split_focused) (rw e),
        rw (h, split_focused)
            (rw e (
              set-Change w v w.active tab tab' nobody (one session) h same ok
                (λ s. omega (arith, counts s)))),
        rw (h, split_focused)
            (rw e (ground (arith, get_elem?-set w.tabs w.active w.active tab' lt))),
      )

  -- In a valid workspace, setting the ratio of any split to any float, an infinity or a NaN among
  -- them, leaves a valid workspace, whose ratios are all within a tenth and nine tenths, with the
  -- same panes.
  pub set_split_ratio-Keeps :
      (index : ℕ) (path : List Branch) (ratio : F32)
      → Keeps w (set_split_ratio w index path ratio).0
  unfolding set_split_ratio
  set_split_ratio-Keeps index path ratio = elim (Bool-cases (is_finite ratio)) [
    | inr e ↦ rw (e, set_split_ratio) (unchanged w v)
    | inl fin ↦ elim (Option-cases (get_elem? w.tabs index)) [
      | inl e ↦ rw (fin, set_split_ratio) (rw e (unchanged w v))
      | inr (tab, h) ↦ elim (Option-cases (set_ratio_at tab.root path ratio)) [
        | inl e ↦ rw (fin, set_split_ratio) (rw h (rw e (unchanged w v)))
        | inr (root', e) ↦
            let ok = AllOk-get_elem? w.tabs index tab v.tabs_ok h in
            let (ratios, focused, counts) =
              set_ratio_at-TabOk tab.root path ratio root' tab.focus fin e ok.ratios ok.focused in
            rw (fin, set_split_ratio)
              (rw h (
                rw e (
                  set-Change w v index tab _ nobody nobody h refl
                    (record { focused = focused; ratios = ratios })
                    (λ s. omega (arith, counts s)))))
      ]
    ]
  ]

  -- Closing the pane at a path takes that pane alone, and answers its session.
  pub close_leaf-Change :
      (index : ℕ) (path : List Branch) (tab : Tab) (removed : SessionId)
      → get_elem? w.tabs index ≡ some tab
      → navigate tab.root path ≡ some (leaf removed)
      → ((close_leaf w index path).1 ≡ some removed)
        × Change w (close_leaf w index path).0 (one removed) nobody
  unfolding close_leaf
  close_leaf-Change index path tab removed h at = elim (Option-cases (pop path)) [
    | inl e ↦
        let root : tab.root ≡ leaf removed =
          root_is_leaf tab.root removed path (pop-nil path e) at in
        let closed = close_tab-Change w v index tab h in
        (
          rw (h, close_leaf) (rw at (rw e)),
          rw (h, close_leaf)
              (rw at (
                rw e (record {
                  valid = closed.valid;
                  panes = λ s.
                      unfold pane_count in
                      omega (arith, closed.panes s, ap (λ p. pane_count p s) root);
                }))),
        )
    | inr ((parent, last), e) ↦
        let ok = AllOk-get_elem? w.tabs index tab v.tabs_ok h in
        let (root', c, closed) = collapse-PaneClosed tab parent last removed ok (
          subst (λ p. navigate tab.root p ≡ some (leaf removed)) (pop-append path parent last e)
            at) in
        (
          rw (h, close_leaf) (rw at (rw e (rw c))),
          rw (h, close_leaf)
              (rw at (
                rw e (
                  rw c (
                    set-Change w v index tab _ (one removed) nobody h refl
                      (record { focused = closed.focused; ratios = closed.ratios })
                      (λ s. omega (arith, closed.counts s)))))),
        )
  ]

  -- A focus move inside the active tab, to a leaf.
  refocus_active-Keeps :
      (focus : Tab → Option (List Branch))
      → ((tab : Tab) (path : List Branch) → focus tab ≡ some path → OnLeaf tab.root path)
      → Keeps w (refocus_active w focus).0
  refocus_active-Keeps focus lands = elim (Option-cases (get_elem? w.tabs w.active)) [
    | inl e ↦ rw (e, refocus_active) (unchanged w v)
    | inr (tab, h) ↦ elim (Option-cases (focus tab)) [
      | inl e ↦ rw (h, refocus_active) (rw e (unchanged w v))
      | inr (path, e) ↦
          rw (h, refocus_active)
            (rw e (
              set-Change w v w.active tab _ nobody nobody h refl
                (record {
                  focused = lands tab path e;
                  ratios = (AllOk-get_elem? w.tabs w.active tab v.tabs_ok h).ratios;
                })
                (λ s. refl)))
    ]
  ]

  pub cycle_focus-Keeps : (step : Step) → Keeps w (cycle_focus w step).0
  unfolding cycle_focus
  cycle_focus-Keeps step =
      refocus_active-Keeps _ (λ tab path e. cycled_path-OnLeaf tab.root tab.focus step path e)

  pub focus_dir-Keeps : (dir : Direction) → Keeps w (focus_dir w dir).0
  unfolding focus_dir
  focus_dir-Keeps dir =
      refocus_active-Keeps _ (λ tab path e. directed_path-OnLeaf tab.root tab.focus dir path e)

  pub focus_pane_of-Keeps : (session : SessionId) → Keeps w (focus_pane_of w session).0
  unfolding focus_pane_of
  focus_pane_of-Keeps session =
      refocus_active-Keeps _ (λ tab path e. (session, find-ends_on tab.root session path e))

  -- In a valid workspace with an active tab, some session is focused, closing the focused pane
  -- answers that session, and leaves a valid workspace that hosts one pane of it fewer and all
  -- other panes as before.
  pub close_focused-Change :
      (tab : Tab)
      → get_elem? w.tabs w.active ≡ some tab
      → (removed : SessionId) × (focused_session w ≡ some removed)
        × ((close_focused w).1 ≡ some removed)
        × Change w (close_focused w).0 (one removed) nobody
  unfolding close_focused focused_session Tab.focused_session
  close_focused-Change tab h =
      let (f, at) = (AllOk-get_elem? w.tabs w.active tab v.tabs_ok h).focused in
      let (answer, change) = close_leaf-Change w.active tab.focus tab f h at in
      (
        f,
        rw (h, focused_session) (rw (at, Tab.focused_session)),
        rw (h, close_focused) answer,
        rw (h, close_focused) change,
      )

  -- In a valid workspace where some pane hosts the session, closing the pane of the session
  -- answers the session, and leaves a valid workspace that hosts one pane of it fewer and all
  -- other panes as before.
  pub close_pane_of-Change :
      (session : SessionId)
      → 0 < total w.tabs session
      → ((close_pane_of w session).1 ≡ some session)
        × Change w (close_pane_of w session).0 (one session) nobody
  unfolding close_pane_of
  close_pane_of-Change session h = elim (Option-cases (tab_of w session)) [
    | inl e ↦ absurd (omega (arith, tab_of-none w session e))
    | inr (index, e) ↦
        let (tab, g, hosted) = tab_of-some w session index e in
        let (path, p, at) = leaf_path_of-counted tab.root session hosted in
        let (answer, change) = close_leaf-Change index path tab session g at in
        (rw (e, close_pane_of) (rw g (rw p answer)), rw (e, close_pane_of) (rw g (rw p change)))
  ]

  pub close_pane_of-none :
      (session : SessionId) → total w.tabs session ≡ 0 → close_pane_of w session ≡ (w, none)
  unfolding close_pane_of
  close_pane_of-none session h = elim (Option-cases (tab_of w session)) [
    | inl e ↦ rw (e, close_pane_of)
    | inr (index, e) ↦
        let (tab, g, hosted) = tab_of-some w session index e in
        absurd (omega (arith, hosted, total-erase_idx w.tabs index tab session g))
  ]

-- Revealing a pane: its tab is activated, then the pane focused.
pub Keeps-trans : {w w' w'' : Workspace} → Keeps w w' → Keeps w' w'' → Keeps w w''
Keeps-trans k l = record { valid = l.valid; panes = λ s. omega (arith, k.panes s, l.panes s) }

-- In a valid workspace, revealing the pane of any session leaves a valid workspace with the same
-- panes.
pub reveal_pane_of-Keeps :
    (w : Workspace) → IsValid w → (session : SessionId) → Keeps w (reveal_pane_of w session).0
unfolding reveal_pane_of
reveal_pane_of-Keeps w v session = elim (Option-cases (tab_of w session)) [
  | inl e ↦ rw (e, reveal_pane_of) (unchanged w v)
  | inr (index, e) ↦
      let k = activate-Keeps w v index in
      elim (Option-cases (activate w index).1) [
        | inl n ↦ rw (e, reveal_pane_of) (rw n k)
        | inr (u, n) ↦
            rw (e, reveal_pane_of)
              (rw n (Keeps-trans k (focus_pane_of-Keeps (activate w index).0 k.valid session)))
      ]
]
