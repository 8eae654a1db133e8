-- ===== src/Claude/Color.antt =====
-- crates/claude/src/color.rs: the palette of `/color`.
use termherd.Prelude.{
  ◌≡◌, ◌↔◌, ◌∙◌, sym, find?_holds, refl, Bool, List, [], ◌∷◌, Option, some, find?,
}
use termherd.Text.{Text, text_eq, text_eq_sound, trim}
use termherd.Text.Ascii.{codes, to_ascii_lowercase, lower}
use termherd.Tab.{ClaudeColor, red, blue, green, yellow, purple, orange, pink, cyan, default}

abbrev pub all_colors : List ClaudeColor
all_colors = red ∷ blue ∷ green ∷ yellow ∷ purple ∷ orange ∷ pink ∷ cyan ∷ default ∷ []

abbrev pub color_name : ClaudeColor → Text
color_name red = codes "red"
color_name blue = codes "blue"
color_name green = codes "green"
color_name yellow = codes "yellow"
color_name purple = codes "purple"
color_name orange = codes "orange"
color_name pink = codes "pink"
color_name cyan = codes "cyan"
color_name default = codes "default"

-- `str::eq_ignore_ascii_case`.
unfoldable pub eq_ignore_ascii_case : Text → Text → Bool
eq_ignore_ascii_case s t = text_eq (to_ascii_lowercase s) (to_ascii_lowercase t)

-- `ClaudeColor::from_name`.
unfoldable pub color_from_name : Text → Option ClaudeColor
color_from_name name =
    let trimmed = trim name in
    find? (λ color. eq_ignore_ascii_case (color_name color) trimmed) all_colors

color_from_name_named :
    (s : Text) (color : ClaudeColor)
    → to_ascii_lowercase (trim s) ≡ color_name color
    → color_from_name s ≡ some color
unfolding color_from_name eq_ignore_ascii_case lower text_eq
color_from_name_named s red h = rw h refl
color_from_name_named s blue h = rw h refl
color_from_name_named s green h = rw h refl
color_from_name_named s yellow h = rw h refl
color_from_name_named s purple h = rw h refl
color_from_name_named s orange h = rw h refl
color_from_name_named s pink h = rw h refl
color_from_name_named s cyan h = rw h refl
color_from_name_named s default h = rw h refl

color_name_lower : (color : ClaudeColor) → to_ascii_lowercase (color_name color) ≡ color_name color
unfolding lower
color_name_lower red = refl
color_name_lower blue = refl
color_name_lower green = refl
color_name_lower yellow = refl
color_name_lower purple = refl
color_name_lower orange = refl
color_name_lower pink = refl
color_name_lower cyan = refl
color_name_lower default = refl

color_from_name_names :
    (s : Text) (color : ClaudeColor)
    → color_from_name s ≡ some color
    → to_ascii_lowercase (trim s) ≡ color_name color
unfolding color_from_name eq_ignore_ascii_case
color_from_name_names s color h =
    let found =
      find?_holds (λ c. eq_ignore_ascii_case (color_name c) (trim s)) all_colors color h in
    sym (text_eq_sound (to_ascii_lowercase (color_name color)) (to_ascii_lowercase (trim s)) found)
    ∙ color_name_lower color

pub color_from_name_lem :
    (s : Text) (color : ClaudeColor)
    → (color_from_name s ≡ some color) ↔ (to_ascii_lowercase (trim s) ≡ color_name color)
color_from_name_lem s color = (color_from_name_names s color, color_from_name_named s color)
