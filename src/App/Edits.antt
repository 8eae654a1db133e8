-- ===== src/App/Edits.antt =====
-- The user's edits of the overlay (crates/core/src/app/metadata.rs).
use termherd.Prelude.{
  ◌≡◌, ◌∙◌, ap, sym, refl, Bool, true, false, not, [], ◌∷◌, Option, none, some, if◌then◌else◌,
  Bool-cases, inl, inr,
}
use termherd.Text.{Text, text_eq, trim, is_empty}
use termherd.Metadata.{SessionMeta}
use termherd.Effect.{save_metadata}
use termherd.App.{App, overlay, record_for}
use termherd.App.Retitle.{retitle_tabs}
use termherd.App.Overlays.{
  update_meta, update_repo_meta, rename_session, renamed, is_starred, is_archived, is_repo_starred,
  is_repo_declared,
}
use termherd.App.Marks.{
  session_marks, repo_marks, marks_of, update_meta-session_marks, update_repo_meta-repo_marks,
  retitle_tabs-SameOverlay, marks-SameOverlay,
}
use termherd.App.Dispatch.{
  Event, dispatch, toggle_star, toggle_archive, rename_session_event, toggle_repo_star,
  declare_repo, forget_repo,
}

-- An edit of the overlay that the user makes.
pub data Edit : Type 0 where
  star archive star_repo declare forget : Text → Edit
  rename : (session title : Text) → Edit

abbrev pub event_of : Edit → Event
event_of (star s) = toggle_star s
event_of (archive s) = toggle_archive s
event_of (star_repo path) = toggle_repo_star path
event_of (declare path) = declare_repo path
event_of (forget path) = forget_repo path
event_of (rename s title) = rename_session_event s title

abbrev pub flipped : Bool → Bool → Bool
flipped here mark = if here then not mark else mark

abbrev pub blank_or : Text → Option Text
blank_or title = if is_empty (trim title) then none else some (trim title)

-- What an edit makes of what is read of a session.
abbrev pub session_after : Edit → Text → Bool × Bool × Option Text → Bool × Bool × Option Text
session_after (star s) k (starred, archived, title) =
    (flipped (text_eq s k) starred, archived, title)
session_after (archive s) k (starred, archived, title) =
    (starred, flipped (text_eq s k) archived, title)
session_after (rename s t) k (starred, archived, title) =
    (starred, archived, if text_eq s k then blank_or t else title)
session_after (star_repo path) k marks = marks
session_after (declare path) k marks = marks
session_after (forget path) k marks = marks

-- What an edit makes of what is read of a repo.
abbrev pub repo_after : Edit → Text → Bool × Bool → Bool × Bool
repo_after (star_repo path) k (starred, declared) = (flipped (text_eq path k) starred, declared)
repo_after (declare path) k (starred, declared) =
    (starred, if text_eq path k then true else declared)
repo_after (forget path) k (starred, declared) =
    (starred, if text_eq path k then false else declared)
repo_after (star s) k marks = marks
repo_after (archive s) k marks = marks
repo_after (rename s title) k marks = marks

-- What an edit changes of what is read, and what it has saved.
abbrev pub IsEdited : Edit → App → App → Type 0
IsEdited edit app app' =
    (k : Text)
    → (session_marks app' k ≡ session_after edit k (session_marks app k))
      × (repo_marks app' k ≡ repo_after edit k (repo_marks app k))

star_here :
    (here : Bool) (marks : Bool × Bool × Option Text)
    → (if here then (not marks.0, marks.1, marks.2) else marks)
      ≡ (flipped here marks.0, marks.1, marks.2)
star_here true marks = refl
star_here false marks = refl

archive_here :
    (here : Bool) (marks : Bool × Bool × Option Text)
    → (if here then (marks.0, not marks.1, marks.2) else marks)
      ≡ (marks.0, flipped here marks.1, marks.2)
archive_here true marks = refl
archive_here false marks = refl

title_here :
    (here : Bool) (title : Option Text) (marks : Bool × Bool × Option Text)
    → (if here then (marks.0, marks.1, title) else marks)
      ≡ (marks.0, marks.1, if here then title else marks.2)
title_here true title marks = refl
title_here false title marks = refl

repo_star_here :
    (here : Bool) (marks : Bool × Bool)
    → (if here then (not marks.0, marks.1) else marks) ≡ (flipped here marks.0, marks.1)
repo_star_here true marks = refl
repo_star_here false marks = refl

declared_here :
    (here b : Bool) (marks : Bool × Bool)
    → (if here then (marks.0, b) else marks) ≡ (marks.0, if here then b else marks.1)
declared_here true b marks = refl
declared_here false b marks = refl

renamed_title :
    (title : Text) (claudes : Option Text) (m : SessionMeta)
    → marks_of (some (renamed (trim title) claudes m)) ≡ (m.starred, m.archived, blank_or title)
unfolding renamed
renamed_title title claudes m = elim (Bool-cases (is_empty (trim title))) [
  | inl e ↦ rw (e, renamed) refl
  | inr e ↦ rw (e, renamed) refl
]

-- On the stars, the archive marks and the given names of all sessions, and on the stars and the
-- declarations of all repos, each of the user's edits acts as on functions: it flips, sets or
-- clears the mark of its session or repo, a blank name clearing the name, and changes no other
-- mark; and it answers one effect, which saves the overlay as it is after the edit.
pub dispatch-IsEdited :
    (edit : Edit) (app : App)
    → IsEdited edit app (dispatch app (event_of edit)).0
      × ((dispatch app (event_of edit)).1
          ≡ save_metadata (overlay (dispatch app (event_of edit)).0) ∷ [])
unfolding dispatch update_meta update_repo_meta rename_session is_starred is_archived
    is_repo_starred is_repo_declared
dispatch-IsEdited (star s) app = (
  λ k. (
    update_meta-session_marks app s k (λ m. record m { starred = not m.starred })
          (λ (st, ar, t). (not st, ar, t)) (λ m. refl)
        ∙ star_here (text_eq s k) (session_marks app k),
    refl,
  ),
  refl,
)
dispatch-IsEdited (archive s) app = (
  λ k. (
    update_meta-session_marks app s k (λ m. record m { archived = not m.archived })
          (λ (st, ar, t). (st, not ar, t)) (λ m. refl)
        ∙ archive_here (text_eq s k) (session_marks app k),
    refl,
  ),
  refl,
)
dispatch-IsEdited (star_repo path) app = (
  λ k. (
    refl,
    update_repo_meta-repo_marks app path k (λ m. record m { starred = not m.starred })
          (λ (st, de). (not st, de)) (λ m. refl)
        ∙ repo_star_here (text_eq path k) (repo_marks app k),
  ),
  refl,
)
dispatch-IsEdited (declare path) app = (
  λ k. (
    refl,
    update_repo_meta-repo_marks app path k (λ m. record m { declared = true })
          (λ (st, de). (st, true)) (λ m. refl)
        ∙ declared_here (text_eq path k) true (repo_marks app k),
  ),
  refl,
)
dispatch-IsEdited (forget path) app = (
  λ k. (
    refl,
    update_repo_meta-repo_marks app path k (λ m. record m { declared = false })
          (λ (st, de). (st, false)) (λ m. refl)
        ∙ declared_here (text_eq path k) false (repo_marks app k),
  ),
  refl,
)
dispatch-IsEdited (rename s title) app =
    let claudes : Option Text = elim (record_for app s) [
      | none ↦ none
      | some r ↦ r.digest.custom_title
    ] in
    let edit : SessionMeta → SessionMeta = renamed (trim title) claudes in
    let app' : App = (update_meta app s edit).0 in
    let same =
      λ (k : Text). marks-SameOverlay app' (retitle_tabs app') k (retitle_tabs-SameOverlay app') in
    (
      λ k. (
        (same k).0
            ∙ (update_meta-session_marks app s k edit (λ (st, ar, t). (st, ar, blank_or title))
                  (renamed_title title claudes)
                ∙ title_here (text_eq s k) (blank_or title) (session_marks app k)),
        (same k).1.0,
      ),
      ap (λ o. save_metadata o ∷ []) (sym (same []).1.1),
    )
