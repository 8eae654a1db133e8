-- ===== src/App/Badge.antt =====
-- The badge of a tab is the most urgent status of its sessions.
use mathlib.Core.Option.{some-injective}
use termherd.Prelude.{
  ℕ, zero, suc, ◌≤◌, ◌≡◌, refl, ap, ◌∙◌, inl, inr, List, [], ◌∷◌, none, some, arith, leb,
  Bool-cases, Option-cases, get_elem?,
}
use termherd.Session.{SessionStatus, urgency}
use termherd.App.TabViews.{most_urgent}

most_urgent-none : (ss : List SessionStatus) → most_urgent ss ≡ none → ss ≡ []
unfolding most_urgent
most_urgent-none [] h = refl
most_urgent-none (t ∷ ts) h = absurd (ground arith)

-- No status of the list is more urgent.
abbrev pub Greatest : List SessionStatus → SessionStatus → Type 0
Greatest ss m = (i : ℕ) (s : SessionStatus) → get_elem? ss i ≡ some s → urgency s ≤ urgency m

Greatest-cons :
    (t : SessionStatus) (ts : List SessionStatus) (m u : SessionStatus)
    → urgency t ≤ urgency m
    → urgency u ≤ urgency m
    → Greatest ts u
    → Greatest (t ∷ ts) m
Greatest-cons t ts m u h k rest zero s e = let same : t ≡ s = some-injective t s e in rw (← same) h
Greatest-cons t ts m u h k rest (suc i) s e = omega (arith, rest i s e)

-- The status that a tab's badge takes from a list of statuses is one of them, and none of them is
-- more urgent.
pub most_urgent-some :
    (ss : List SessionStatus) (m : SessionStatus)
    → most_urgent ss ≡ some m
    → ((i : ℕ) × (get_elem? ss i ≡ some m)) × Greatest ss m
unfolding most_urgent
most_urgent-some [] m h = absurd (ground arith)
most_urgent-some (t ∷ ts) m h = elim (Option-cases (most_urgent ts)) [
  | inl e ↦
      let same : t ≡ m = ground arith in
      let nil = most_urgent-none ts e in
      rw nil (
        (0, ap some same),
        Greatest-cons t [] m m (rw same (omega arith)) (omega arith)
            (λ i s g. absurd (ground arith)),
      )
  | inr (u, e) ↦
      let ((i, at), rest) = most_urgent-some ts u e in
      elim (Bool-cases (leb (urgency t) (urgency u))) [
        | inl le ↦
            let same : u ≡ m = ground arith in
            (
              (suc i, at ∙ ap some same),
              Greatest-cons t ts m u (rw (← same) (ground arith)) (rw (← same) (omega arith)) rest,
            )
        | inr gt ↦
            let same : t ≡ m = ground arith in
            (
              (0, ap some same),
              Greatest-cons t ts m u (rw (← same) (omega arith)) (rw (← same) (ground arith)) rest,
            )
      ]
]
