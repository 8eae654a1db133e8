-- ===== src/App/Ordered.antt =====
-- The order of the projects in the sidebar (crates/core/src/app/sidebar.rs, visible_projects).
use termherd.Prelude.{Bool, true, ◌&&◌, not, List, [], ◌∷◌}
use termherd.Text.{Text}
use termherd.Text.Words.{all}
use termherd.App.{App}

-- No member comes strictly before an earlier one.
abbrev pub is_ordered : {A : Type 0} → (A → A → Bool) → List A → Bool
is_ordered before [] = true
is_ordered before (x ∷ xs) = all (λ y. not (before y x)) xs && is_ordered before xs
