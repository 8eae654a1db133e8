-- ===== src/Browser/Search.antt =====
-- crates/core/src/browser.rs: the search over the rows of the sidebar, with the title that a digest
-- (crates/claude/src/digest.rs) shows. `str::to_lowercase` follows the Unicode tables and is a
-- parameter. A range counts bytes.
use termherd.Prelude.{
  ℕ, ◌+◌, ◌-◌, Bool, true, false, ◌&&◌, ◌||◌, List, [], ◌∷◌, ◌++◌, Option, none, some, any, ltb,
  ◌==◌, if◌then◌else◌, length, take, get_elem?, find_idx, unwrap_or, min, max,
}
use termherd.Text.{Text, trim, is_empty}
use termherd.Text.Ascii.{strip_prefix}
use termherd.Text.Words.{filter, lines, utf8, as_bytes}
use termherd.Claude.Prompt.{drop}
use termherd.Browser.{SessionDigest, SessionRecord, ProjectGroup}

abbrev non_empty : Option Text → Option Text
non_empty none = none
non_empty (some s) = if is_empty s then none else some s

abbrev or_else : Option Text → Option Text → Option Text
or_else none other = other
or_else (some s) other = some s

unfoldable pub display_title : SessionDigest → Option Text → Text
display_title digest user_rename =
    unwrap_or
      (or_else (non_empty user_rename)
        (or_else (non_empty digest.custom_title) (non_empty digest.ai_title)))
      digest.summary

abbrev pub starts_with : Text → Text → Bool
starts_with s prefix = elim (strip_prefix prefix s) [ none ↦ false | some rest ↦ true ]

abbrev further : ℕ → Option ℕ → Option ℕ
further n none = none
further n (some at) = some (n + at)

-- `str::find`, the first byte of the first occurrence.
unfoldable pub find_text : Text → Text → Option ℕ
find_text [] needle = if is_empty needle then some 0 else none
find_text (c ∷ cs) needle =
    let rest = find_text cs needle in
    if starts_with (c ∷ cs) needle then some 0 else further (length (utf8 c)) rest

abbrev pub contains_text : Text → Text → Bool
contains_text s needle = elim (find_text s needle) [ none ↦ false | some at ↦ true ]

abbrev pub ByteRange : Type 0
ByteRange = ℕ × ℕ

-- Where the characters start, and where the last one ends.
unfoldable pub bounds : ℕ → Text → List ℕ
bounds at [] = at ∷ []
bounds at (c ∷ cs) = at ∷ bounds (at + length (utf8 c)) cs

abbrev pub is_char_boundary : Text → ℕ → Bool
is_char_boundary s at = any (λ bound. bound == at) (bounds 0 s)

abbrev pub mapped : Text → ℕ → ℕ → ByteRange
mapped line start end =
    if is_char_boundary line start && is_char_boundary line end
    then (start, end)
    else (0, length (as_bytes line))

pub record MatchSnippet : Type 0 where
  pub line : Text
  pub range : ByteRange

abbrev pub snippet_max_chars : ℕ
snippet_max_chars = 80

abbrev pub snippet_lead_chars : ℕ
snippet_lead_chars = 16

abbrev pub ellipsis : ℕ
ellipsis = 0x2026

-- The window from the character `ws` to `we` of a line of `last` characters.
abbrev pub windowed : Text → ℕ → ℕ → ℕ → ℕ → ByteRange → MatchSnippet
windowed line last ws we from (start, end) =
    let range_start = start - from + (if ltb 0 ws then length (utf8 ellipsis) else 0) in
    record {
      line =
          (if ltb 0 ws then ellipsis ∷ [] else [])
          ++ take (we - ws) (drop ws line)
          ++ (if ltb we last then ellipsis ∷ [] else []);
      range = (range_start, range_start + (end - start));
    }

unfoldable pub snippet_around : Text → ByteRange → MatchSnippet
snippet_around line (start, end) =
    let places = bounds 0 line in
    let last = length places - 1 in
    let si = unwrap_or (find_idx (λ bound. bound == start) places) 0 in
    let ei = unwrap_or (find_idx (λ bound. bound == end) places) last in
    let ws = si - snippet_lead_chars in
    let we = min (max (ws + snippet_max_chars) ei) last in
    windowed line last ws we (unwrap_or (get_elem? places ws) 0) (start, end)

abbrev pub content_of : SessionDigest → List Text
content_of digest =
    digest.summary ∷ lines digest.text_content
    ++ elim digest.slug [ none ↦ [] | some slug ↦ slug ∷ [] ]

module _ (to_lowercase : Text → Text) where
  unfoldable pub locate : Text → Text → Option ByteRange
  locate line needle = elim (find_text (to_lowercase line) needle) [
    | none ↦ none
    | some start ↦ some (mapped line start (start + length (as_bytes needle)))
  ]

  abbrev pub first_hit : List Text → Text → Option MatchSnippet
  first_hit [] needle = none
  first_hit (line ∷ more) needle = elim (locate line needle) [
    | none ↦ first_hit more needle
    | some hit ↦ some (snippet_around line hit)
  ]

  unfoldable pub content_snippet : SessionDigest → Text → Option MatchSnippet
  content_snippet digest needle =
      if is_empty needle then none else first_hit (content_of digest) needle

  unfoldable pub session_matches : SessionRecord → Text → Bool → Bool
  session_matches session needle titles_only =
      if contains_text (to_lowercase (display_title session.digest none)) needle
      then true
      else if titles_only
      then false
      else elim (content_snippet session.digest needle) [ none ↦ false | some snippet ↦ true ]

  abbrev pub push_matching : Text → List SessionRecord → List ProjectGroup → List ProjectGroup
  push_matching path [] groups = groups
  push_matching path (session ∷ sessions) groups =
      record { path = path; sessions = session ∷ sessions } ∷ groups

  abbrev pub filter_needle : List (Text × List SessionRecord) → Text → Bool → List ProjectGroup
  filter_needle [] needle titles_only = []
  filter_needle ((path, sessions) ∷ rows) needle titles_only =
      let rest = filter_needle rows needle titles_only in
      if is_empty needle || contains_text (to_lowercase path) needle
      then record { path = path; sessions = sessions } ∷ rest
      else push_matching path (filter (λ s. session_matches s needle titles_only) sessions) rest

  unfoldable pub filter_rows : List (Text × List SessionRecord) → Text → Bool → List ProjectGroup
  filter_rows rows query titles_only = filter_needle rows (to_lowercase (trim query)) titles_only
