-- ===== src/Workspace/Tabs.antt =====
-- What the pane operations do to one tab: the focus stays on a leaf, the split ratios stay within
-- their bounds, and panes come and go one at a time.
use mathlib.Core.List.{append-nil}
use termherd.Prelude.{
  ℕ, ◌+◌, ◌<◌, ◌≡◌, ◌≢◌, refl, sym, ap, ◌∙◌, subst, inl, inr, true, false, List, [], ◌∷◌, ◌++◌,
  Option, none, some, arith, ◌==◌, if◌then◌else◌, Option-cases, Bool-cases,
}
use termherd.F32.{F32, finite, half, tenth, nine_tenths, is_finite, clamp, clamp-Within}
use termherd.Pane.{
  SessionId, SplitDir, Branch, a, b, Pane, leaf, split, navigate, write_at, leaf_path_of,
}
use termherd.Pane.Paths.{OnLeaf, navigate-leaf_path_of, focus_first_leaf-OnLeaf}
use termherd.Pane.Edits.{
  pane_count, RatiosWithin, write_at-Written, pane_count_pos, navigate-RatiosWithin,
  navigate-write_at-split, leaf_path_of-counted,
}
use termherd.Pane.Splices.{Spliced, above_leaf, write_at-Spliced}
use termherd.Tab
use termherd.Tab.{Tab}
use termherd.Workspace.Panes.{split_tab, set_ratio_at, pop, collapse, refocus}

pub record TabOk (tab : Tab) : Type 0 where
  pub focused : OnLeaf tab.root tab.focus
  pub ratios : RatiosWithin tab.root

-- One more pane for `s`, and no other change in what the tab hosts.
abbrev pub one : SessionId → SessionId → ℕ
one session s = if session == s then 1 else 0

-- Splitting a tab whose focus is on a leaf succeeds: the new pane is there once, and focused.
pub split_tab-TabOk :
    (tab : Tab) (dir : SplitDir) (session : SessionId)
    → TabOk tab
    → (tab' : Tab) × (split_tab tab dir session ≡ some tab')
      × TabOk tab'
      × (Tab.focused_session tab' ≡ some session)
      × ((s : SessionId) → pane_count tab'.root s ≡ pane_count tab.root s + one session s)
      × (tab'.parked ≡ tab.parked)
unfolding split_tab Tab.focused_session
split_tab-TabOk tab dir session ok =
    let (f, at) = ok.focused in
    let new : Pane = split dir (finite false half) (leaf f) (leaf session) in
    let (root', e, w) = write_at-Written tab.root tab.focus (leaf f) new at in
    let here : navigate root' (tab.focus ++ b ∷ []) ≡ some (leaf session) =
      w.below (b ∷ []) ∙ unfold navigate in refl in
    (
      record tab { root = root'; focus = tab.focus ++ b ∷ [] },
      rw (at, split_tab) (rw e),
      record {
        focused = (session, here);
        ratios = w.ratios ok.ratios ((omega arith, omega arith), tt, tt);
      },
      rw (here, Tab.focused_session),
      (λ s. unfold pane_count in omega (arith, w.counts s)),
      refl,
    )

-- Setting a ratio changes no pane and keeps every path to a leaf.
pub set_ratio_at-TabOk :
    (root : Pane) (path : List Branch) (ratio : F32) (root' : Pane) (focus : List Branch)
    → is_finite ratio ≡ true
    → set_ratio_at root path ratio ≡ some root'
    → RatiosWithin root
    → OnLeaf root focus
    → RatiosWithin root'
      × OnLeaf root' focus
      × ((s : SessionId) → pane_count root' s ≡ pane_count root s)
unfolding set_ratio_at
set_ratio_at-TabOk root path ratio root' focus fin h ok f =
    elim (Option-cases (navigate root path)) [
      | inl e ↦ absurd (ground arith)
      | inr (leaf l, e) ↦ absurd (ground arith)
      | inr (split d r x y, e) ↦
          let new : Pane = split d (clamp tenth nine_tenths ratio) x y in
          let (root1, e1, w) = write_at-Written root path (split d r x y) new e in
          let same : root1 ≡ root' = ground arith in
          let sides = navigate-RatiosWithin root path (split d r x y) e ok in
          subst
            (λ p.
              RatiosWithin p
              × OnLeaf p focus
              × ((s : SessionId) → pane_count p s ≡ pane_count root s))
            same
            (
              w.ratios ok
                  (clamp-Within tenth nine_tenths ratio (omega arith) fin, sides.1, sides.2),
              (f.0, navigate-write_at-split root path focus d d r _ x y root1 f.0 e e1 f.1),
              λ s. unfold pane_count in omega (arith, w.counts s),
            )
    ]

pub pop-nil : (path : List Branch) → pop path ≡ none → path ≡ []
unfolding pop
pop-nil [] h = refl
pop-nil (x ∷ xs) h = absurd (ground arith)

-- `path.pop()` splits the last step off.
pub pop-append :
    (path init : List Branch) (last : Branch)
    → pop path ≡ some (init, last)
    → path ≡ init ++ last ∷ []
unfolding pop
pop-append [] init last h = absurd (ground arith)
pop-append (x ∷ xs) init last h = elim (Option-cases (pop xs)) [
  | inl e ↦ ground (arith, pop-nil xs e)
  | inr ((i, l), e) ↦ ground (arith, pop-append xs i l e)
]

-- The split above a leaf: its sides are the leaf and its sibling.
parent_of_leaf :
    (root : Pane) (parent : List Branch) (last : Branch) (removed : SessionId)
    → navigate root (parent ++ last ∷ []) ≡ some (leaf removed)
    → (d : SplitDir) × (r : F32) × (sibling : Pane) × (navigate root parent
        ≡ some (elim last [
          | a ↦ split d r (leaf removed) sibling
          | b ↦ split d r sibling (leaf removed)
        ]))
unfolding navigate
parent_of_leaf (leaf _) [] last removed h = absurd (ground arith)
parent_of_leaf (split d r x y) [] a removed h = (d, r, y, ground arith)
parent_of_leaf (split d r x y) [] b removed h = (d, r, x, ground arith)
parent_of_leaf (leaf _) (_ ∷ _) last removed h = absurd (ground arith)
parent_of_leaf (split d r x y) (a ∷ parent) last removed h = parent_of_leaf x parent last removed h
parent_of_leaf (split d r x y) (b ∷ parent) last removed h = parent_of_leaf y parent last removed h

-- What closing the pane at a path, which is not the whole tab, leaves of the tab.
pub record PaneClosed (tab : Tab) (removed : SessionId) (parent : List Branch) (last : Branch)
    (root' : Pane) : Type 0 where
  -- The split is replaced by its other side, and the rest of the tree is as it was.
  pub spliced : Spliced tab.root parent last removed root'
  pub ratios : RatiosWithin root'
  pub counts : (s : SessionId) → pane_count root' s + one removed s ≡ pane_count tab.root s
  pub focused : OnLeaf root' (refocus root' (Tab.focused_session tab) removed parent)
  -- The focus stays with the session that had it, where that is another.
  pub follows :
      (f : SessionId)
      → Tab.focused_session tab ≡ some f
      → f ≢ removed
      → navigate root' (refocus root' (Tab.focused_session tab) removed parent) ≡ some (leaf f)

refocus-OnLeaf :
    (root sibling : Pane) (parent : List Branch) (removed : SessionId) (focused : Option SessionId)
    → navigate root parent ≡ some sibling
    → OnLeaf root (refocus root focused removed parent)
unfolding refocus
refocus-OnLeaf root sibling parent removed none h = focus_first_leaf-OnLeaf root parent h
refocus-OnLeaf root sibling parent removed (some f) h = elim (Bool-cases (f == removed)) [
  | inl same ↦ rw same (focus_first_leaf-OnLeaf root parent h)
  | inr other ↦ elim (Option-cases (leaf_path_of root f)) [
    | inl e ↦ rw (other, refocus) (rw e (focus_first_leaf-OnLeaf root parent h))
    | inr (path, e) ↦ rw (other, refocus) (rw e (f, navigate-leaf_path_of root f e))
  ]
]

refocus_follows :
    (root : Pane) (parent : List Branch) (removed f : SessionId)
    → f ≢ removed
    → 0 < pane_count root f
    → navigate root (refocus root (some f) removed parent) ≡ some (leaf f)
unfolding refocus
refocus_follows root parent removed f ne h =
    let (path, e, at) = leaf_path_of-counted root f h in
    let other : (f == removed) ≡ false = ground arith in rw (other, refocus) (rw e at)

focused_counted :
    (tab : Tab) (f : SessionId)
    → OnLeaf tab.root tab.focus
    → Tab.focused_session tab ≡ some f
    → 0 < pane_count tab.root f
unfolding Tab.focused_session
focused_counted tab f (g, at) h =
    let same : g ≡ f = ground arith in rw (← same) (pane_count_pos tab.root tab.focus g at)

-- The tree with the split above the closed pane replaced by the sibling.
sibling-PaneClosed :
    (tab : Tab) (parent : List Branch) (last : Branch) (removed : SessionId) (d : SplitDir)
    (r : F32) (sibling : Pane)
    → TabOk tab
    → navigate tab.root parent ≡ some (above_leaf last d r removed sibling)
    → ((s : SessionId)
        → pane_count (above_leaf last d r removed sibling) s ≡ pane_count sibling s + one removed s)
    → RatiosWithin sibling
    → (root' : Pane) × (write_at tab.root parent sibling ≡ some root')
      × PaneClosed tab removed parent last root'
unfolding Tab.focused_session
sibling-PaneClosed tab parent last removed d r sibling ok h counted sides =
    let full = above_leaf last d r removed sibling in
    let (root', e, w) = write_at-Written tab.root parent full sibling h in
    let here : navigate root' parent ≡ some sibling =
      unfold navigate in (ap (navigate root') (sym (append-nil parent)) ∙ w.below []) in
    let counts : (s : SessionId) → pane_count root' s + one removed s ≡ pane_count tab.root s =
      λ s. omega (arith, w.counts s, counted s) in
    (
      root',
      e,
      record {
        spliced = write_at-Spliced tab.root parent last d r removed sibling root' h e;
        ratios = w.ratios ok.ratios sides;
        counts = counts;
        focused = refocus-OnLeaf root' sibling parent removed _ here;
        follows = λ f at ne. rw at (
            refocus_follows root' parent removed f ne
              (ground (arith, counts f, focused_counted tab f ok.focused at)));
      },
    )

-- In a tab whose focus ends on a leaf and whose ratios are in bounds, closing a leaf below a
-- split replaces the split by its sibling and leaves the rest of the tree as it was: the ratios
-- stay in bounds, exactly the closed pane is gone, the focus ends on a leaf, and it stays with
-- the session that had it where that is another than the closed one.
pub collapse-PaneClosed :
    (tab : Tab) (parent : List Branch) (last : Branch) (removed : SessionId)
    → TabOk tab
    → navigate tab.root (parent ++ last ∷ []) ≡ some (leaf removed)
    → (root' : Pane) × (collapse tab.root parent last removed ≡ some root')
      × PaneClosed tab removed parent last root'
unfolding collapse pane_count
collapse-PaneClosed tab parent a removed ok h =
    let (d, r, sibling, e) = parent_of_leaf tab.root parent a removed h in
    let (root', ew, closed) =
      sibling-PaneClosed tab parent a removed d r sibling ok e (λ s. omega arith)
        (navigate-RatiosWithin tab.root parent _ e ok.ratios).2 in
    (root', rw (e, collapse) ew, closed)
collapse-PaneClosed tab parent b removed ok h =
    let (d, r, sibling, e) = parent_of_leaf tab.root parent b removed h in
    let (root', ew, closed) =
      sibling-PaneClosed tab parent b removed d r sibling ok e (λ s. omega arith)
        (navigate-RatiosWithin tab.root parent _ e ok.ratios).1 in
    (root', rw (e, collapse) ew, closed)
