-- ===== src/DeepLink.antt =====
-- crates/core/src/deeplink.rs: the reading of a `termherd://` link, which any web page may hand over.
pub mod Refusals
use termherd.Prelude.{
  ℕ, zero, suc, ◌+◌, ◌-◌, ◌*◌, Bool, true, false, ◌&&◌, ◌||◌, not, List, [], ◌∷◌, ◌++◌, Option,
  none, some, leb, ◌==◌, if◌then◌else◌, any, take, unwrap_or, Result, ok, err,
}
use termherd.Text.{Text, text_eq, is_empty}
use termherd.Text.Ascii.{codes, split}
use termherd.Text.Words.{filter, is_control, as_bytes, trim_end_matches}
use termherd.Claude.Color.{eq_ignore_ascii_case}
use termherd.Claude.Prompt.{drop}

pub data LinkRequest : Type 0 where
  open_repo : Text → LinkRequest

pub data LinkError : Type 0 where
  not_termherd : LinkError
  unknown_action : LinkError
  missing_repo : LinkError
  duplicate_repo : LinkError
  unknown_parameter : LinkError
  relative_repo : LinkError
  bad_encoding : LinkError
  control_character : LinkError
  network_path : LinkError

abbrev pub scheme : Text
scheme = codes "termherd://"

unfoldable pub strip_scheme : Text → Option Text
strip_scheme url = if eq_ignore_ascii_case (take 11 url) scheme then some (drop 11 url) else none

unfoldable pub is_link : Text → Bool
is_link text = elim (strip_scheme text) [ none ↦ false | some rest ↦ true ]

abbrev pub before_all : ℕ → Option (Text × Text) → Option (Text × Text)
before_all c none = none
before_all c (some (before, after)) = some (c ∷ before, after)

-- `str::split_once`.
unfoldable pub split_once : ℕ → Text → Option (Text × Text)
split_once sep [] = none
split_once sep (c ∷ cs) =
    let rest = split_once sep cs in if c == sep then some ([], cs) else before_all c rest

-- Where there is no separator, the whole text, and nothing after it.
abbrev pub split_or_all : ℕ → Text → Text × Text
split_or_all sep s = unwrap_or (split_once sep s) (s, [])

-- The parameters from left to right; `repo` is the value so far.
abbrev pub read_pairs : List Text → Option Text → Result LinkError (Option Text)
read_pairs [] repo = ok repo
read_pairs (pair ∷ pairs) repo = elim (text_eq (split_or_all 61 pair).0 (codes "repo")) [
  | false ↦ err unknown_parameter
  | true ↦ elim repo [
    | some earlier ↦ err duplicate_repo
    | none ↦ read_pairs pairs (some (split_or_all 61 pair).1)
  ]
]

abbrev pub named_repo : Result LinkError (Option Text) → Result LinkError Text
named_repo (err e) = err e
named_repo (ok none) = err missing_repo
named_repo (ok (some value)) = if is_empty value then err missing_repo else ok value

unfoldable pub repo_parameter : Text → Result LinkError Text
repo_parameter query =
    named_repo (read_pairs (filter (λ pair. not (is_empty pair)) (split 38 query)) none)

unfoldable pub hex_value : ℕ → Option ℕ
hex_value digit =
    if leb 48 digit && leb digit 57
    then some (digit - 48)
    else if leb 65 digit && leb digit 70
    then some (digit - 55)
    else if leb 97 digit && leb digit 102
    then some (digit - 87)
    else none

abbrev pub hex_byte : Option ℕ → Option ℕ → Option ℕ
hex_byte (some high) (some low) = some (high * 16 + low)
hex_byte high low = none

abbrev pub push_byte : Option ℕ → Option (List ℕ) → Option (List ℕ)
push_byte (some byte) (some bytes) = some (byte ∷ bytes)
push_byte byte bytes = none

abbrev pub percent_bytes : List ℕ → Option (List ℕ)
percent_bytes [] = some []
percent_bytes (b ∷ []) = if b == 37 then none else some (b ∷ [])
percent_bytes (b ∷ h ∷ []) =
    let rest = percent_bytes (h ∷ []) in if b == 37 then none else push_byte (some b) rest
percent_bytes (b ∷ h ∷ l ∷ bytes) =
    let decoded = push_byte (hex_byte (hex_value h) (hex_value l)) (percent_bytes bytes) in
    let kept = push_byte (some b) (percent_bytes (h ∷ l ∷ bytes)) in
    if b == 37 then decoded else kept

-- What a leading byte asks for: how many bytes follow, its bits, and the range of the next byte.
abbrev pub Lead : Type 0
Lead = ℕ × ℕ × ℕ × ℕ

unfoldable pub lead_of : ℕ → Option Lead
lead_of b =
    if leb b 0x7f
    then some (0, b, 0, 0)
    else if leb 0xc2 b && leb b 0xdf
    then some (1, b - 0xc0, 0x80, 0xbf)
    else if b == 0xe0
    then some (2, 0, 0xa0, 0xbf)
    else if b == 0xed
    then some (2, 13, 0x80, 0x9f)
    else if leb 0xe1 b && leb b 0xef
    then some (2, b - 0xe0, 0x80, 0xbf)
    else if b == 0xf0
    then some (3, 0, 0x90, 0xbf)
    else if leb 0xf1 b && leb b 0xf3
    then some (3, b - 0xf0, 0x80, 0xbf)
    else if b == 0xf4
    then some (3, 4, 0x80, 0x8f)
    else none

abbrev pub push_char : ℕ → Option Text → Option Text
push_char c none = none
push_char c (some s) = some (c ∷ s)

-- `String::from_utf8`; the first numbers are those of the character that is being read.
abbrev pub utf8_text : ℕ → ℕ → ℕ → ℕ → List ℕ → Option Text
utf8_text zero value low high [] = some []
utf8_text (suc more) value low high [] = none
utf8_text zero value low high (b ∷ bytes) = elim (lead_of b) [
  | none ↦ none
  | some (zero, c, l, h) ↦ push_char c (utf8_text 0 0 0 0 bytes)
  | some (suc more, v, l, h) ↦ utf8_text (suc more) v l h bytes
]
utf8_text (suc more) value low high (b ∷ bytes) = elim (leb low b && leb b high) [
  | false ↦ none
  | true ↦ elim more [
    | zero ↦ push_char (value * 64 + (b - 0x80)) (utf8_text 0 0 0 0 bytes)
    | suc fewer ↦ utf8_text (suc fewer) (value * 64 + (b - 0x80)) 0x80 0xbf bytes
  ]
]

abbrev pub as_text : Option (List ℕ) → Result LinkError Text
as_text none = err bad_encoding
as_text (some bytes) = elim (utf8_text 0 0 0 0 bytes) [ none ↦ err bad_encoding | some s ↦ ok s ]

unfoldable pub percent_decode : Text → Result LinkError Text
percent_decode encoded = as_text (percent_bytes (as_bytes encoded))

abbrev pub is_letter : ℕ → Bool
is_letter c = leb 65 c && leb c 90 || leb 97 c && leb c 122

abbrev pub is_separator : ℕ → Bool
is_separator c = c == 47 || c == 92

abbrev pub drive_length : Text → Option ℕ
drive_length (drive ∷ colon ∷ separator ∷ rest) =
    if is_letter drive && (colon == 58 && is_separator separator) then some 3 else none
drive_length path = none

abbrev pub is_rooted : Text → Bool
is_rooted [] = false
is_rooted (c ∷ cs) = c == 47

unfoldable pub root_length : Text → Option ℕ
root_length path = if is_rooted path then some 1 else drive_length path

-- The separators that are dropped at the end: a backslash may end a name on Unix.
abbrev pub ends_path : ℕ → ℕ → Bool
ends_path root c = if root == 1 then c == 47 else is_separator c

-- The root, of `root` characters, stays.
unfoldable pub without_trailing_separator : Text → ℕ → Text
without_trailing_separator path root =
    take root path ++ trim_end_matches (ends_path root) (drop root path)

-- `//` or `/\`.
abbrev pub is_network : Text → Bool
is_network (c ∷ d ∷ cs) = c == 47 && is_separator d
is_network path = false

abbrev pub rooted : Text → Option ℕ → Result LinkError LinkRequest
rooted repo none = err relative_repo
rooted repo (some root) = ok (open_repo (without_trailing_separator repo root))

abbrev pub checked : Text → Result LinkError LinkRequest
checked repo =
    if any is_control repo
    then err control_character
    else if is_network repo
    then err network_path
    else rooted repo (root_length repo)

abbrev pub and_then :
    {A B : Type 0} → Result LinkError A → (A → Result LinkError B) → Result LinkError B
and_then (err e) next = err e
and_then (ok x) next = next x

-- `action.strip_suffix('/').unwrap_or(action) != "open"`, negated.
abbrev pub is_open : Text → Bool
is_open action = text_eq action (codes "open") || text_eq action (codes "open/")

abbrev pub read_request : Text × Text → Result LinkError LinkRequest
read_request (action, query) =
    if is_open action
    then and_then (and_then (repo_parameter query) percent_decode) checked
    else err unknown_action

unfoldable pub parse : Text → Result LinkError LinkRequest
parse url = elim (strip_scheme url) [
  | none ↦ err not_termherd
  | some rest ↦ read_request (split_or_all 63 (split_or_all 35 rest).0)
]
