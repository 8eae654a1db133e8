-- ===== src/Workspace/Strip/Kept.antt =====
-- The operations on the strip keep it one.
use termherd.Prelude.{
  Option, ℕ, suc, ◌-◌, ◌<◌, ◌≡◌, refl, ap, ◌||◌, inl, inr, true, false, some, arith, leb, ltb, ◌==◌,
  if◌then◌else◌, length, get_elem?, length-erase_idx, Option-cases, Bool-cases,
  lt-length_of_get_elem?, get_elem?-eq-some,
}
use termherd.Indices.{index_after_removal}
use termherd.Text.{Text}
use termherd.Pane.{SessionId}
use termherd.Tab.{Tab, new_tab}
use termherd.Workspace.{
  Workspace, first_parked, parked_at, insert_tab, unparked_fallback, relocate, lands_parked, park,
  unpark, toggle_park, activate, move_tab, close_tab, open_tab,
}
use termherd.Workspace.Relocate.{tabs-relocate}
use termherd.Workspace.Zones.{first_parked-Zoned, Zoned-erase_idx, Zoned-insert_unparked}
use termherd.Workspace.Strip.{
  IsStrip, IsStrip-of_Zoned, parked-leb, relocated-Zoned, relocate-IsStrip,
}

module _ (w : Workspace) (strip : IsStrip w) where
  pub open_tab-IsStrip : (session : SessionId) (title : Text) → IsStrip (open_tab w session title)
  unfolding open_tab insert_tab new_tab
  open_tab-IsStrip session title =
      let k = first_parked w.tabs in
      let z =
        Zoned-insert_unparked k w.tabs k (new_tab session title) strip.zoned refl (omega arith) in
      IsStrip-of_Zoned (suc k) _ z (λ _. ground (arith, z.within)) (λ _. omega arith)

  pub park-IsStrip : (index : ℕ) → IsStrip (park w index).0
  unfolding park
  park-IsStrip index = elim (Option-cases (get_elem? w.tabs index)) [
    | inl e ↦ rw (e, park) strip
    | inr (tab, e) ↦ elim (Bool-cases tab.parked) [
      | inl p ↦ rw (e, park) (rw p strip)
      | inr p ↦
          rw (e, park)
            (rw p (
              relocate-IsStrip w strip index (first_parked w.tabs - 1) true tab e
                (ground (arith, strip.zoned.within, lt-length_of_get_elem? w.tabs index e))
                (λ c. cc) (λ _. ground arith)))
    ]
  ]

  pub unpark-IsStrip : (index : ℕ) → IsStrip (unpark w index).0
  unfolding unpark
  unpark-IsStrip index = elim (Option-cases (get_elem? w.tabs index)) [
    | inl e ↦ rw (e, unpark) strip
    | inr (tab, e) ↦ elim (Bool-cases tab.parked) [
      | inl p ↦
          rw (e, unpark)
            (rw p (
              relocate-IsStrip w strip index (first_parked w.tabs) false tab e
                (ground
                  (arith, parked-leb w strip index tab e, lt-length_of_get_elem? w.tabs index e))
                (λ _. ground arith) (λ c. cc)))
      | inr p ↦ rw (e, unpark) (rw p strip)
    ]
  ]

  pub toggle_park-IsStrip : (index : ℕ) → IsStrip (toggle_park w index).0
  unfolding toggle_park
  toggle_park-IsStrip index = elim (Option-cases (get_elem? w.tabs index)) [
    | inl e ↦ rw (e, toggle_park) strip
    | inr (tab, e) ↦ elim (Bool-cases tab.parked) [
      | inl p ↦ rw (e, toggle_park) (rw p (unpark-IsStrip index))
      | inr p ↦ rw (e, toggle_park) (rw p (park-IsStrip index))
    ]
  ]

  moved-IsStrip :
      (from to : ℕ) (tab : Tab)
      → get_elem? w.tabs from ≡ some tab
      → to < length w.tabs
      → IsStrip (
          relocate w from to (
            lands_parked
              (parked_at w.tabs from)
              to
              (first_parked w.tabs - (if parked_at w.tabs from then 0 else 1))))
  unfolding lands_parked
  moved-IsStrip from to tab e bound =
      rw (e, parked_at)
        (relocate-IsStrip w strip from to _ tab e bound (ground arith) (ground arith))

  pub move_tab-IsStrip : (from to : ℕ) → IsStrip (move_tab w from to).0
  unfolding move_tab
  move_tab-IsStrip from to =
      elim (Bool-cases (leb (length w.tabs) from || leb (length w.tabs) to)) [
        | inl out ↦ rw (out, move_tab) strip
        | inr within ↦ elim (Bool-cases (from == to)) [
          | inl same ↦ rw (within, same, move_tab) strip
          | inr other ↦
              let (tab, e) = get_elem?-eq-some w.tabs from (ground arith) in
              rw (within, other, move_tab) (moved-IsStrip from to tab e (ground arith))
        ]
      ]

  unpark_parked :
      (index : ℕ) (tab : Tab)
      → get_elem? w.tabs index ≡ some tab
      → tab.parked ≡ true
      → unpark w index ≡ (relocate w index (first_parked w.tabs) false, some (first_parked w.tabs))
  unfolding unpark
  unpark_parked index tab e p = rw (e, unpark) (rw p)

  unparked-IsStrip :
      (index : ℕ) (tab : Tab)
      → get_elem? w.tabs index ≡ some tab
      → tab.parked ≡ true
      → IsStrip
          (record (relocate w index (first_parked w.tabs) false) { active = first_parked w.tabs })
  unparked-IsStrip index tab e p =
      let bound : first_parked w.tabs < length w.tabs =
        ground (arith, parked-leb w strip index tab e, lt-length_of_get_elem? w.tabs index e) in
      let z =
        relocated-Zoned w strip index (first_parked w.tabs) tab e false bound (λ _. ground arith)
          (λ c. cc) in
      rw (tabs-relocate w index (first_parked w.tabs) false tab e)
        (IsStrip-of_Zoned _ _ z (λ _. ground (arith, z.within)) (λ _. ground arith))

  pub activate-IsStrip : (index : ℕ) → IsStrip (activate w index).0
  unfolding activate
  activate-IsStrip index = elim (Option-cases (get_elem? w.tabs index)) [
    | inl e ↦ rw (e, activate) strip
    | inr (tab, e) ↦ elim (Bool-cases tab.parked) [
      | inl p ↦
          rw (e, activate)
            (let done = unpark_parked index tab e p in
              rw (p, done)
                (rw (ap (λ (r : Workspace × Option ℕ). r.0) done) (unparked-IsStrip index tab e p)))
      | inr p ↦
          rw (e, activate)
            (rw p (
              IsStrip-of_Zoned (first_parked w.tabs) _ strip.zoned
                (λ _. lt-length_of_get_elem? w.tabs index e)
                (λ _. ground (arith, parked-leb w strip index tab e))))
    ]
  ]

  pub close_tab-IsStrip : (index : ℕ) → IsStrip (close_tab w index).0
  unfolding close_tab
  close_tab-IsStrip index = elim (Option-cases (get_elem? w.tabs index)) [
    | inl e ↦ rw (e, close_tab) strip
    | inr (tab, e) ↦
        let lt = lt-length_of_get_elem? w.tabs index e in
        let k =
          if ltb index (first_parked w.tabs)
          then first_parked w.tabs - 1
          else first_parked w.tabs in
        let z = Zoned-erase_idx (first_parked w.tabs) w.tabs index strip.zoned lt in
        let border = first_parked-Zoned _ _ z in
        rw (e, close_tab)
          (IsStrip-of_Zoned _ _ z
            (unfold index_after_removal unparked_fallback in
              ground (
                arith,
                border,
                strip.in_range,
                strip.on_unparked,
                strip.zoned.within,
                length-erase_idx w.tabs index lt,
              ))
            (unfold index_after_removal unparked_fallback in
              ground (
                arith,
                border,
                strip.in_range,
                strip.on_unparked,
                strip.zoned.within,
                length-erase_idx w.tabs index lt,
              )))
  ]
