-- ===== src/Workspace/Strip.antt =====
-- What every operation on the strip keeps: the parked tabs stand last, the active index names a
-- tab, and it names an unparked one while there is one.
pub mod Kept
use termherd.Prelude.{
  ℕ, suc, ◌-◌, ◌≤◌, ◌<◌, ◌≡◌, refl, ◌&&◌, subst, inl, inr, Bool, true, false, List, some, arith,
  leb, ltb, if◌then◌else◌, length, get_elem?, erase_idx, insert_idx, length-erase_idx,
  length-insert_idx, Bool-cases, lt-length_of_get_elem?,
}
use termherd.Indices.{shift_index-lt}
use termherd.Tab.{Tab}
use termherd.Workspace.{
  Workspace, new, first_parked, parked_at, insert_tab, unparked_fallback, relocate,
}
use termherd.Workspace.Zones.{
  Zoned, first_parked-Zoned, Zoned-erase_idx, Zoned-insert_unparked, Zoned-insert_parked,
}

pub record IsStrip (w : Workspace) : Type 0 where
  pub zoned : Zoned (first_parked w.tabs) w.tabs
  pub in_range : 0 < length w.tabs → w.active < length w.tabs
  pub on_unparked : 0 < first_parked w.tabs → w.active < first_parked w.tabs

-- A strip whose border between the zones is known.
pub IsStrip-of_Zoned :
    (k : ℕ) (w : Workspace)
    → Zoned k w.tabs
    → (0 < length w.tabs → w.active < length w.tabs)
    → (0 < k → w.active < k)
    → IsStrip w
IsStrip-of_Zoned k w z r u =
    let e = first_parked-Zoned k w.tabs z in
    record { zoned = rw e z; in_range = r; on_unparked = rw e u }

pub new-IsStrip : IsStrip new
new-IsStrip =
    IsStrip-of_Zoned 0 new
      (record { within = omega arith; parked_from = λ i h. absurd (omega arith) })
      (λ h. absurd (omega arith)) (λ h. absurd (omega arith))

-- The last step of `relocate`: an active tab that is now parked gives way to an unparked one.
settle-IsStrip :
    (k : ℕ) (tabs : List Tab) (active slot : ℕ)
    → Zoned k tabs
    → active < length tabs
    → IsStrip (
        if parked_at tabs active && ltb 0 (first_parked tabs)
        then record { tabs = tabs; active = unparked_fallback tabs slot }
        else record { tabs = tabs; active = active })
unfolding unparked_fallback
settle-IsStrip k tabs active slot z h =
    let e = first_parked-Zoned k tabs z in
    let p = z.parked_from active h in
    rw e (
      IsStrip-of_Zoned k _
        (elim (Bool-cases (parked_at tabs active && ltb 0 k)) [ inl c ↦ rw c z | inr c ↦ rw c z ])
        (ground (arith, z.within)) (ground (arith, z.within)))

module _ (w : Workspace) (strip : IsStrip w) where
  -- In a strip, whether a tab is parked is a matter of its index.
  pub parked-leb :
      (i : ℕ) (tab : Tab) → get_elem? w.tabs i ≡ some tab → tab.parked ≡ leb (first_parked w.tabs) i
  parked-leb i tab h = ground (arith, strip.zoned.parked_from i (lt-length_of_get_elem? w.tabs i h))

  pub insert_tab-IsStrip : (tab : Tab) → tab.parked ≡ false → IsStrip (insert_tab w tab).0
  unfolding insert_tab
  insert_tab-IsStrip tab fresh =
      let k = first_parked w.tabs in
      IsStrip-of_Zoned (suc k) _
        (Zoned-insert_unparked k w.tabs k tab strip.zoned fresh (omega arith))
        (ground (
          arith,
          strip.in_range,
          strip.on_unparked,
          strip.zoned.within,
          length-insert_idx w.tabs k tab,
        ))
        (ground (arith, strip.in_range, strip.on_unparked, strip.zoned.within))

  -- A tab taken out and put back in its own zone.
  module _ (from to : ℕ) (tab : Tab) (h : get_elem? w.tabs from ≡ some tab) where
    erased-Zoned :
        Zoned (first_parked w.tabs - (if tab.parked then 0 else 1)) (erase_idx w.tabs from)
    erased-Zoned =
        subst (λ n. Zoned n (erase_idx w.tabs from))
          (ground (arith, parked-leb from tab h, strip.zoned.within))
          (Zoned-erase_idx (first_parked w.tabs) w.tabs from strip.zoned
            (lt-length_of_get_elem? w.tabs from h))

    abbrev pub relocated_border : Bool → ℕ
    relocated_border parked =
        if parked
        then first_parked w.tabs - (if tab.parked then 0 else 1)
        else suc (first_parked w.tabs - (if tab.parked then 0 else 1))

    pub relocated-Zoned :
        (parked : Bool)
        → to < length w.tabs
        → (parked ≡ false → to ≤ first_parked w.tabs - (if tab.parked then 0 else 1))
        → (parked ≡ true → first_parked w.tabs - (if tab.parked then 0 else 1) ≤ to)
        → Zoned
            (relocated_border parked)
            (insert_idx (erase_idx w.tabs from) to (record tab { parked = parked }))
    relocated-Zoned true bound front back =
        Zoned-insert_parked _ _ to _ erased-Zoned refl (back refl)
          (omega (arith, length-erase_idx w.tabs from (lt-length_of_get_elem? w.tabs from h)))
    relocated-Zoned false bound front back =
        Zoned-insert_unparked _ _ to _ erased-Zoned refl (front refl)

  -- Taking a tab out and putting it back in its own zone.
  pub relocate-IsStrip :
      (from to : ℕ) (parked : Bool) (tab : Tab)
      → get_elem? w.tabs from ≡ some tab
      → to < length w.tabs
      → (parked ≡ false → to ≤ first_parked w.tabs - (if tab.parked then 0 else 1))
      → (parked ≡ true → first_parked w.tabs - (if tab.parked then 0 else 1) ≤ to)
      → IsStrip (relocate w from to parked)
  unfolding relocate
  relocate-IsStrip from to parked tab h bound front back =
      let lt = lt-length_of_get_elem? w.tabs from h in
      rw (h, relocate)
        (settle-IsStrip _ _ _ from (relocated-Zoned from to tab h parked bound front back) (
          omega (
            arith,
            shift_index-lt w.active from to (length w.tabs),
            strip.in_range,
            length-erase_idx w.tabs from lt,
            length-insert_idx (erase_idx w.tabs from) to (record tab { parked = parked }),
          )))
