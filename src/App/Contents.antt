-- ===== src/App/Contents.antt =====
-- The sessions and the projects in the sidebar (crates/core/src/app/sidebar.rs, visible_projects).
use termherd.Prelude.{
  ◌≡◌, ◌∙◌, refl, Bool, true, false, ◌&&◌, ◌||◌, not, List, [], ◌∷◌, map, arith, any, ltb, length,
}
use termherd.Text.{Text, trim}
use termherd.Text.Words.{filter}
use termherd.Browser.{SessionRecord, ProjectGroup}
use termherd.Browser.Search.{filter_rows, filter_needle}
use termherd.App.{App}
use termherd.App.SidebarRows.{
  Row, merged_rows, scanned_row, declared_row, sort_paths, undiscovered, sidebar_row_shown,
}
use termherd.App.Overlays.{is_starred, is_archived, is_repo_declared}
use termherd.App.Searched.{
  is_wanted, is_match, is_path_match, any-append, sessions-filter_needle, paths-filter_needle,
}
use termherd.App.Visible.{
  insert_by, sort_by, is_true_first, is_kept, arranged, order_of, order_before, is_shown,
  visible_projects,
}

module _ {A : Type 0} (p : A → Bool) (before : A → A → Bool) where
  any-insert_by : (x : A) (xs : List A) → any p (insert_by before x xs) ≡ (p x || any p xs)
  any-insert_by x [] = ground arith
  any-insert_by x (y ∷ ys) = ground (arith, any-insert_by x ys)

  any-sort_by : (xs : List A) → any p (sort_by before xs) ≡ any p xs
  any-sort_by [] = refl
  any-sort_by (x ∷ xs) = ground (arith, any-insert_by x (sort_by before xs), any-sort_by xs)

any-filter :
    {A B : Type 0} (p q : B → Bool) (f : A → B) (xs : List A)
    → any p (filter q (map f xs)) ≡ any (λ x. q (f x) && p (f x)) xs
any-filter p q f [] = refl
any-filter p q f (x ∷ xs) = ground (arith, any-filter p q f xs)

abbrev pub group_before : App → ProjectGroup → ProjectGroup → Bool
group_before app group other = order_before (order_of app group) (order_of app other)

any-filter_kept :
    {A : Type 0} (p q : A → Bool) (xs : List A) → any p (filter q xs) ≡ any (λ x. p x && q x) xs
any-filter_kept p q [] = refl
any-filter_kept p q (x ∷ xs) = ground (arith, any-filter_kept p q xs)

any_same : {A : Type 0} (f g : A → Bool) (xs : List A) → ((x : A) → f x ≡ g x) → any f xs ≡ any g xs
any_same f g [] h = refl
any_same f g (x ∷ xs) h = rw (h x, any_same f g xs h) refl

-- A session is not archived, or the archived ones are asked for.
abbrev pub is_visible : App → SessionRecord → Bool
is_visible app s = app.sidebar.show_archived || not (is_archived app s.session_id)

any-arranged :
    (app : App) (p : SessionRecord → Bool) (g : ProjectGroup)
    → any p (arranged app g).sessions ≡ any (λ s. p s && is_visible app s) g.sessions
any-arranged app p g =
    any-sort_by p (is_true_first (λ (s : SessionRecord). is_starred app s.session_id))
      (filter (is_kept app) g.sessions)
    ∙ any-filter_kept p (is_kept app) g.sessions

any_positive :
    (p : SessionRecord → Bool) (d : Bool) (xs : List SessionRecord)
    → ((ltb 0 (length xs) || d) && any p xs) ≡ any p xs
any_positive p d [] = ground arith
any_positive p d (x ∷ xs) = ground arith

length-any : (xs : List SessionRecord) → ltb 0 (length xs) ≡ any (λ s. true) xs
length-any [] = refl
length-any (x ∷ xs) = ground arith

shown_session :
    (app : App) (p : Text → SessionRecord → Bool) (g : ProjectGroup)
    → (is_shown app (arranged app g) && any (p g.path) (arranged app g).sessions)
      ≡ any (λ s. p g.path s && is_visible app s) g.sessions
unfolding sidebar_row_shown
shown_session app p g =
    any_positive (p g.path) (is_repo_declared app g.path) (arranged app g).sessions
    ∙ any-arranged app (p g.path) g

shown_path :
    (app : App) (p : Text → Bool) (g : ProjectGroup)
    → (is_shown app (arranged app g) && p g.path)
      ≡ (p g.path && (any (is_visible app) g.sessions || is_repo_declared app g.path))
unfolding sidebar_row_shown
shown_path app p g =
    rw (length-any (arranged app g).sessions, any-arranged app (λ s. true) g) (ground arith)

any-scanned :
    (f : Row → Bool) (groups : List ProjectGroup)
    → any f (map scanned_row groups) ≡ any (λ g. f (g.path, g.sessions)) groups
any-scanned f [] = refl
any-scanned f (g ∷ groups) = rw (any-scanned f groups) refl

any-declared :
    (f : Text → SessionRecord → Bool) (paths : List Text)
    → any (λ row. any (f row.0) row.1) (map declared_row paths) ≡ false
any-declared f [] = refl
any-declared f (p ∷ paths) = any-declared f paths

any-merged_rows :
    (app : App) (f : Text → SessionRecord → Bool)
    → any (λ row. any (f row.0) row.1) (merged_rows app)
      ≡ any (λ g. any (f g.path) g.sessions) app.sidebar.projects
unfolding merged_rows
any-merged_rows app f =
    let groups = app.sidebar.projects in
    let paths = sort_paths (undiscovered groups app.repos) in
    any-append (λ row. any (f row.0) row.1) (map scanned_row groups) (map declared_row paths)
    ∙ rw (any-declared f paths, any-scanned (λ row. any (f row.0) row.1) groups) (ground arith)

-- What is searched for, as it is compared.
abbrev pub needle_of : (Text → Text) → App → Text
needle_of to_lowercase app = to_lowercase (trim app.sidebar.search)

any-visible_projects :
    (to_lowercase : Text → Text) (app : App) (p : ProjectGroup → Bool)
    → any p (visible_projects to_lowercase app)
      ≡ any
          (λ g. is_shown app (arranged app g) && p (arranged app g))
          (filter_needle to_lowercase
            (merged_rows app)
            (needle_of to_lowercase app)
            app.sidebar.search_titles_only)
unfolding visible_projects filter_rows
any-visible_projects to_lowercase app p =
    let groups =
      filter_needle to_lowercase (merged_rows app) (needle_of to_lowercase app)
        app.sidebar.search_titles_only in
    any-sort_by p (group_before app) (filter (is_shown app) (map (arranged app) groups))
    ∙ any-filter p (is_shown app) (arranged app) groups

-- The sessions that the sidebar shows, by their paths: those of the scan that are visible and that
-- the search wants.
abbrev pub ShowsSessions : (Text → Text) → App → List ProjectGroup → Type 0
ShowsSessions to_lowercase app shown =
    (p : Text → SessionRecord → Bool)
    → any (λ g. any (p g.path) g.sessions) shown
      ≡ any
          (λ g.
            any
              (λ s.
                (p g.path s && is_visible app s)
                && is_wanted to_lowercase (needle_of to_lowercase app)
                    app.sidebar.search_titles_only g.path s)
              g.sessions)
          app.sidebar.projects

-- The projects that the sidebar shows: the rows that have a session to show, and those declared that
-- the search finds by their path or by a session of theirs.
abbrev pub ShowsPaths : (Text → Text) → App → List ProjectGroup → Type 0
ShowsPaths to_lowercase app shown =
    let needle = needle_of to_lowercase app in
    let titles_only = app.sidebar.search_titles_only in
    (p : Text → Bool)
    → any (λ g. p g.path) shown
      ≡ any
          (λ row.
            p row.0
            && (any (λ s. is_visible app s && is_wanted to_lowercase needle titles_only row.0 s)
                  row.1
                || is_repo_declared app row.0
                  && (is_path_match to_lowercase needle row.0
                      || any (is_match to_lowercase needle titles_only) row.1)))
          (merged_rows app)

pub visible_projects-ShowsSessions :
    (to_lowercase : Text → Text) (app : App)
    → ShowsSessions to_lowercase app (visible_projects to_lowercase app)
visible_projects-ShowsSessions to_lowercase app p =
    let needle = needle_of to_lowercase app in
    let titles_only = app.sidebar.search_titles_only in
    let groups = filter_needle to_lowercase (merged_rows app) needle titles_only in
    any-visible_projects to_lowercase app (λ g. any (p g.path) g.sessions)
    ∙ (any_same _ _ groups (shown_session app p)
        ∙ (sessions-filter_needle to_lowercase (λ path s. p path s && is_visible app s) needle
              titles_only (merged_rows app)
            ∙ any-merged_rows app (λ path s.
              (p path s && is_visible app s) && is_wanted to_lowercase needle titles_only path s)))

pub visible_projects-ShowsPaths :
    (to_lowercase : Text → Text) (app : App)
    → ShowsPaths to_lowercase app (visible_projects to_lowercase app)
visible_projects-ShowsPaths to_lowercase app p =
    let needle = needle_of to_lowercase app in
    let titles_only = app.sidebar.search_titles_only in
    let groups = filter_needle to_lowercase (merged_rows app) needle titles_only in
    any-visible_projects to_lowercase app (λ g. p g.path)
    ∙ (any_same _ _ groups (shown_path app p)
        ∙ paths-filter_needle to_lowercase p (λ path. is_visible app) (is_repo_declared app) needle
            titles_only (merged_rows app))
