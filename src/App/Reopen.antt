-- ===== src/App/Reopen.antt =====
-- The reopen stack: a bounded stack of the tabs closed last.
use termherd.Prelude.{
  ◌+◌, ◌≤◌, ◌≡◌, refl, inl, inr, true, false, List, [], ◌∷◌, ◌++◌, some, arith, ◌==◌, ltb,
  if◌then◌else◌, Bool-cases, length, erase_idx,
}
use termherd.App.{ClosedTab}
use termherd.App.Closing.{push_closed, pop_closed, max_closed_tabs}

pop_closed-append :
    (stack : List ClosedTab) (t : ClosedTab) → pop_closed (stack ++ t ∷ []) ≡ some (stack, t)
unfolding pop_closed
pop_closed-append [] t = refl
pop_closed-append (s ∷ ss) t = rw (pop_closed-append ss t, pop_closed) refl

pub length-snoc :
    (stack : List ClosedTab) (t : ClosedTab) → length (stack ++ t ∷ []) ≡ length stack + 1
length-snoc [] t = refl
length-snoc (s ∷ ss) t = ground (arith, length-snoc ss t)

-- Where the reopen stack is within its cap, remembering a closed tab leaves it within its cap,
-- and reopening takes that tab and leaves the stack before, less its oldest tab where it was
-- full.
pub pop_closed-push_closed :
    (stack : List ClosedTab) (t : ClosedTab)
    → length stack ≤ max_closed_tabs
    → (length (push_closed stack t) ≤ max_closed_tabs)
      × (pop_closed (push_closed stack t)
          ≡ some (if length stack == max_closed_tabs then erase_idx stack 0 else stack, t))
unfolding push_closed
pop_closed-push_closed [] t h = (omega arith, pop_closed-append [] t)
pop_closed-push_closed (s ∷ ss) t h = elim (Bool-cases (length (s ∷ ss) == max_closed_tabs)) [
  | inl full ↦
      let over : ltb max_closed_tabs (length ((s ∷ ss) ++ t ∷ [])) ≡ true =
        ground (arith, length-snoc ss t) in
      rw (full, over) (ground (arith, length-snoc ss t), pop_closed-append ss t)
  | inr room ↦
      let under : ltb max_closed_tabs (length ((s ∷ ss) ++ t ∷ [])) ≡ false =
        ground (arith, length-snoc ss t) in
      rw (room, under) (ground (arith, length-snoc ss t), pop_closed-append (s ∷ ss) t)
]
