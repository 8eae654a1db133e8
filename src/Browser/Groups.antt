-- ===== src/Browser/Groups.antt =====
-- The sidebar has one group for each project path.
use termherd.Prelude.{
  ℕ, ◌+◌, ◌≡◌, refl, ap, sym, ◌∙◌, subst, inl, inr, true, false, List, [], ◌∷◌, Option, arith, ltb,
  if◌then◌else◌, Bool-cases, map,
}
use termherd.Text.{Text, text_eq, text_eq_sound, text_eq_refl}
use termherd.Browser.{
  SessionRecord, ProjectGroup, path_lt, time_lt, push_record, by_path, insert_latest, sort_latest,
  recent_first, group_projects,
}

-- How many groups have the path.
unfoldable pub groups_at : Text → List ProjectGroup → ℕ
groups_at p [] = 0
groups_at p (g ∷ gs) = (if text_eq g.path p then 1 else 0) + groups_at p gs

path_lt_irrefl : (p : Text) → path_lt p p ≡ false
unfolding path_lt
path_lt_irrefl [] = refl
path_lt_irrefl (c ∷ cs) = ground (arith, path_lt_irrefl cs)

path_lt_trans : (p q r : Text) → path_lt p q ≡ true → path_lt q r ≡ true → path_lt p r ≡ true
unfolding path_lt
path_lt_trans p q [] h k = absurd (ground arith)
path_lt_trans p [] (z ∷ zs) h k = absurd (ground arith)
path_lt_trans [] (y ∷ ys) (z ∷ zs) h k = refl
path_lt_trans (x ∷ xs) (y ∷ ys) (z ∷ zs) h k = ground (arith, path_lt_trans xs ys zs)

path_lt_total : (p q : Text) → text_eq p q ≡ false → path_lt p q ≡ false → path_lt q p ≡ true
unfolding path_lt text_eq
path_lt_total [] [] h k = absurd (ground arith)
path_lt_total [] (d ∷ ds) h k = absurd (ground arith)
path_lt_total (c ∷ cs) [] h k = refl
path_lt_total (c ∷ cs) (d ∷ ds) h k = ground (arith, path_lt_total cs ds)

-- Every group's path comes after `p`.
abbrev AllAfter : Text → List ProjectGroup → Type 0
AllAfter p [] = Unit
AllAfter p (g ∷ gs) = (path_lt p g.path ≡ true) × AllAfter p gs

abbrev Increasing : List ProjectGroup → Type 0
Increasing [] = Unit
Increasing (g ∷ gs) = AllAfter g.path gs × Increasing gs

AllAfter-before :
    (p q : Text) (gs : List ProjectGroup) → path_lt p q ≡ true → AllAfter q gs → AllAfter p gs
AllAfter-before p q [] h k = tt
AllAfter-before p q (g ∷ gs) h k = (path_lt_trans p q g.path h k.0, AllAfter-before p q gs h k.1)

groups_at-AllAfter : (p : Text) (gs : List ProjectGroup) → AllAfter p gs → groups_at p gs ≡ 0
unfolding groups_at
groups_at-AllAfter p [] h = refl
groups_at-AllAfter p (g ∷ gs) h = elim (Bool-cases (text_eq g.path p)) [
  | inl e ↦
      let same = text_eq_sound g.path p e in
      absurd (ground (arith, ap (λ q. path_lt p q) same, path_lt_irrefl p, h.0))
  | inr e ↦ ground (arith, groups_at-AllAfter p gs h.1)
]

push_record-AllAfter :
    (p : Text) (r : SessionRecord) (gs : List ProjectGroup)
    → path_lt p r.project_path ≡ true
    → AllAfter p gs
    → AllAfter p (push_record r gs)
unfolding push_record
push_record-AllAfter p r [] h k = (h, tt)
push_record-AllAfter p r (g ∷ gs) h k = elim (Bool-cases (text_eq r.project_path g.path)) [
  | inl e ↦ rw (e, push_record) k
  | inr e ↦ elim (Bool-cases (path_lt r.project_path g.path)) [
    | inl l ↦ rw (e, push_record) (rw l (h, k))
    | inr l ↦ rw (e, push_record) (rw l (k.0, push_record-AllAfter p r gs h k.1))
  ]
]

push_record-Increasing :
    (r : SessionRecord) (gs : List ProjectGroup) → Increasing gs → Increasing (push_record r gs)
unfolding push_record
push_record-Increasing r [] k = (tt, tt)
push_record-Increasing r (g ∷ gs) k = elim (Bool-cases (text_eq r.project_path g.path)) [
  | inl e ↦ rw (e, push_record) k
  | inr e ↦ elim (Bool-cases (path_lt r.project_path g.path)) [
    | inl l ↦ rw (e, push_record) (rw l ((l, AllAfter-before r.project_path g.path gs l k.0), k))
    | inr l ↦
        rw (e, push_record)
          (rw l (
            push_record-AllAfter g.path r gs (path_lt_total r.project_path g.path e l) k.0,
            push_record-Increasing r gs k.1,
          ))
  ]
]

groups_at-push_record :
    (p : Text) (r : SessionRecord) (gs : List ProjectGroup)
    → Increasing gs
    → groups_at p (push_record r gs) ≡ (if text_eq r.project_path p then 1 else groups_at p gs)
unfolding push_record groups_at
groups_at-push_record p r [] k = ground arith
groups_at-push_record p r (g ∷ gs) k = elim (Bool-cases (text_eq r.project_path g.path)) [
  | inl e ↦
      let same = text_eq_sound r.project_path g.path e in
      rw (e, push_record)
        (rw same (elim (Bool-cases (text_eq g.path p)) [
          | inl h ↦
              let none_after : groups_at p gs ≡ 0 =
                subst (λ q. groups_at q gs ≡ 0) (text_eq_sound g.path p h)
                  (groups_at-AllAfter g.path gs k.0) in
              rw h (omega (arith, none_after))
          | inr h ↦ rw h refl
        ]))
  | inr e ↦ elim (Bool-cases (path_lt r.project_path g.path)) [
    | inl l ↦
        rw (e, push_record)
          (rw l (elim (Bool-cases (text_eq r.project_path p)) [
            | inl h ↦
                let none_after : groups_at p (g ∷ gs) ≡ 0 =
                  subst (λ q. groups_at q (g ∷ gs) ≡ 0) (text_eq_sound r.project_path p h)
                    (groups_at-AllAfter r.project_path (g ∷ gs)
                      (l, AllAfter-before r.project_path g.path gs l k.0)) in
                rw h (omega (arith, none_after))
            | inr h ↦ rw h (omega arith)
          ]))
    | inr l ↦
        rw (e, push_record)
          (rw l (elim (Bool-cases (text_eq r.project_path p)) [
            | inl h ↦
                let same = text_eq_sound r.project_path p h in
                let other : text_eq g.path p ≡ false = elim (Bool-cases (text_eq g.path p)) [
                  | inr n ↦ n
                  | inl y ↦
                      let g_same = text_eq_sound g.path p y in
                      let again : r.project_path ≡ g.path = same ∙ sym g_same in
                      absurd (
                        ground (
                          arith,
                          ap (λ q. text_eq r.project_path q) again,
                          text_eq_refl r.project_path,
                        ))
                ] in
                ground (arith, other, groups_at-push_record p r gs k.1)
            | inr h ↦ ground (arith, groups_at-push_record p r gs k.1)
          ]))
  ]
]

-- How many of the records are of the path, one or more counting as one.
unfoldable pub has_path : Text → List SessionRecord → ℕ
has_path p [] = 0
has_path p (r ∷ rs) = if text_eq r.project_path p then 1 else has_path p rs

groups_at-by_path :
    (p : Text) (rs : List SessionRecord) (gs : List ProjectGroup)
    → Increasing gs
    → groups_at p (by_path rs gs) ≡ (if ltb 0 (has_path p rs) then 1 else groups_at p gs)
unfolding by_path has_path
groups_at-by_path p [] gs k = refl
groups_at-by_path p (r ∷ rs) gs k = ground (
  arith,
  groups_at-by_path p rs (push_record r gs) (push_record-Increasing r gs k),
  groups_at-push_record p r gs k,
)

groups_at-recent_first :
    (p : Text) (gs : List ProjectGroup) → groups_at p (map recent_first gs) ≡ groups_at p gs
unfolding groups_at
groups_at-recent_first p [] = refl
groups_at-recent_first p (g ∷ gs) = ground (arith, groups_at-recent_first p gs)

groups_at-insert_latest :
    (p : Text) (key : ProjectGroup → Option ℕ) (g : ProjectGroup) (gs : List ProjectGroup)
    → groups_at p (insert_latest key g gs) ≡ groups_at p (g ∷ gs)
unfolding groups_at insert_latest
groups_at-insert_latest p key g [] = refl
groups_at-insert_latest p key g (h ∷ hs) = elim (Bool-cases (time_lt (key g) (key h))) [
  | inl e ↦ rw (e, insert_latest) (omega (arith, groups_at-insert_latest p key g hs))
  | inr e ↦ rw (e, insert_latest) refl
]

groups_at-sort_latest :
    (p : Text) (key : ProjectGroup → Option ℕ) (gs : List ProjectGroup)
    → groups_at p (sort_latest key gs) ≡ groups_at p gs
unfolding groups_at sort_latest
groups_at-sort_latest p key [] = refl
groups_at-sort_latest p key (g ∷ gs) =
    groups_at-insert_latest p key g (sort_latest key gs)
    ∙ (unfold groups_at in omega (arith, groups_at-sort_latest p key gs))

has_path-bound :
    (p : Text) (rs : List SessionRecord) → (if ltb 0 (has_path p rs) then 1 else 0) ≡ has_path p rs
unfolding has_path
has_path-bound p [] = refl
has_path-bound p (r ∷ rs) = ground (arith, has_path-bound p rs)

-- Among the sidebar's groups of the scanned records, a project path has exactly one group where
-- some record is of the path, and none where no record is.
pub groups_at-group_projects :
    (p : Text) (rs : List SessionRecord) → groups_at p (group_projects rs) ≡ has_path p rs
unfolding group_projects
groups_at-group_projects p rs =
    groups_at-sort_latest p _ (map recent_first (by_path rs []))
    ∙ groups_at-recent_first p (by_path rs [])
    ∙ groups_at-by_path p rs [] tt
    ∙ (unfold groups_at in has_path-bound p rs)
