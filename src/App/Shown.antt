-- ===== src/App/Shown.antt =====
-- The starred sessions come first in their projects (crates/core/src/app/sidebar.rs, visible_projects).
use termherd.Prelude.{
  ◌≡◌, ◌∙◌, refl, Bool, true, ◌&&◌, ◌||◌, not, List, [], ◌∷◌, map, arith, Bool-cases, inl, inr,
}
use termherd.Text.{Text}
use termherd.Text.Words.{filter, all}
use termherd.Browser.{SessionRecord, ProjectGroup}
use termherd.Browser.Search.{filter_rows}
use termherd.App.{App}
use termherd.App.Overlays.{is_starred}
use termherd.App.SidebarRows.{merged_rows}
use termherd.App.Visible.{
  insert_by, sort_by, is_true_first, is_kept, arranged, order_of, order_before, is_shown,
  visible_projects,
}

-- The members that hold come before those that do not.
abbrev pub is_pinned : {A : Type 0} → (A → Bool) → List A → Bool
is_pinned holds [] = true
is_pinned holds (x ∷ xs) = (holds x || all (λ y. not (holds y)) xs) && is_pinned holds xs

-- A group lists its starred sessions first.
abbrev pub is_starred_first : App → ProjectGroup → Bool
is_starred_first app group =
    is_pinned (λ (s : SessionRecord). is_starred app s.session_id) group.sessions

module _ {A : Type 0} (p : A → Bool) where
  pub all-insert_by :
      (before : A → A → Bool) (x : A) (xs : List A)
      → all p (insert_by before x xs) ≡ (p x && all p xs)
  all-insert_by before x [] = refl
  all-insert_by before x (y ∷ ys) = ground (arith, all-insert_by before x ys)

  all-sort_by : (before : A → A → Bool) (xs : List A) → all p (sort_by before xs) ≡ all p xs
  all-sort_by before [] = refl
  all-sort_by before (x ∷ xs) =
      ground (arith, all-insert_by before x (sort_by before xs), all-sort_by before xs)

  is_pinned-insert_by :
      (x : A) (xs : List A)
      → is_pinned p xs ≡ true
      → is_pinned p (insert_by (is_true_first p) x xs) ≡ true
  is_pinned-insert_by x [] h = ground arith
  is_pinned-insert_by x (y ∷ ys) h =
      ground (arith, is_pinned-insert_by x ys, all-insert_by (is_true_first p) x ys)

  is_pinned-sort_by : (xs : List A) → is_pinned p (sort_by (is_true_first p) xs) ≡ true
  is_pinned-sort_by [] = refl
  is_pinned-sort_by (x ∷ xs) =
      is_pinned-insert_by x (sort_by (is_true_first p) xs) (is_pinned-sort_by xs)

starred_groups :
    (app : App) (groups : List ProjectGroup)
    → all (is_starred_first app) (filter (is_shown app) (map (arranged app) groups)) ≡ true
starred_groups app [] = refl
starred_groups app (group ∷ groups) =
    let starred : SessionRecord → Bool = λ s. is_starred app s.session_id in
    let pinned = is_pinned-sort_by starred (filter (is_kept app) group.sessions) in
    elim (Bool-cases (is_shown app (arranged app group))) [
      | inl e ↦ rw (e, pinned) (starred_groups app groups)
      | inr e ↦ rw e (starred_groups app groups)
    ]

pub visible_projects-is_starred_first :
    (to_lowercase : Text → Text) (app : App)
    → all (is_starred_first app) (visible_projects to_lowercase app) ≡ true
unfolding visible_projects
visible_projects-is_starred_first to_lowercase app =
    let groups =
      filter_rows to_lowercase (merged_rows app) app.sidebar.search
        app.sidebar.search_titles_only in
    all-sort_by (is_starred_first app)
      (λ group other. order_before (order_of app group) (order_of app other))
      (filter (is_shown app) (map (arranged app) groups))
    ∙ starred_groups app groups
