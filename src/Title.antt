-- ===== src/Title.antt =====
-- crates/core/src/title.rs: which name a session goes by.
pub mod Ranking
use termherd.Prelude.{Bool, List, [], ◌∷◌, Option, none, some, not, find?, unwrap_or}
use termherd.Text.{Text, trim, is_empty}

pub record TitleSources : Type 0 where
  pub named : Option Text
  pub live : Option Text
  pub described : Option Text
  pub launch : Text

unfoldable pub is_blank : Text → Bool
is_blank title = is_empty (trim title)

-- `Iterator::flatten` over options.
abbrev pub flatten : List (Option Text) → List Text
flatten [] = []
flatten (none ∷ ts) = flatten ts
flatten (some t ∷ ts) = t ∷ flatten ts

unfoldable pub resolve : TitleSources → Text
resolve s =
    unwrap_or (find? (λ t. not (is_blank t)) (flatten (s.named ∷ s.live ∷ s.described ∷ [])))
      s.launch

unfoldable pub first_present : List (Option Text) → Option Text
first_present titles = find? (λ t. not (is_blank t)) (flatten titles)
