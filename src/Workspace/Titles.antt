-- ===== src/Workspace/Titles.antt =====
-- The operations that change titles and colours alone: no pane, zone or focus is touched.
use termherd.Prelude.{
  ℕ, zero, suc, ◌≡◌, refl, ap, ◌∙◌, subst, inl, inr, Bool, true, false, List, [], ◌∷◌, Option, some,
  arith, ◌==◌, ◌&&◌, if◌then◌else◌, Option-cases, Bool-cases, get_elem?, set, length,
}
use termherd.Text.{Text}
use termherd.Pane.{SessionId}
use termherd.Tab
use termherd.Tab.{Tab, option_text_eq}
use termherd.Workspace.{
  Workspace, first_parked, parked_at, update_first, contains, set_live_title, rename_tab,
}
use termherd.Workspace.Strip.{IsStrip-of_Zoned}
use termherd.Workspace.Valid.{IsValid, Keeps, total, AllOk, unchanged}

-- Two tabs that differ in titles and colour at most.
pub record SamePanes (t t' : Tab) : Type 0 where
  pub root : t'.root ≡ t.root
  pub focus : t'.focus ≡ t.focus
  pub parked : t'.parked ≡ t.parked

abbrev pub AllSame : List Tab → List Tab → Type 0
AllSame [] [] = Unit
AllSame (t ∷ ts) (t' ∷ ts') = SamePanes t t' × AllSame ts ts'
AllSame _ _ = ⊥

pub SamePanes-refl : (t : Tab) → SamePanes t t
SamePanes-refl t = record { root = refl; focus = refl; parked = refl }

pub AllSame-refl : (ts : List Tab) → AllSame ts ts
AllSame-refl [] = tt
AllSame-refl (t ∷ ts) = (SamePanes-refl t, AllSame-refl ts)

AllSame-length : (ts ts' : List Tab) → AllSame ts ts' → length ts' ≡ length ts
AllSame-length [] [] h = refl
AllSame-length [] (_ ∷ _) h = absurd h
AllSame-length (_ ∷ _) [] h = absurd h
AllSame-length (t ∷ ts) (t' ∷ ts') h = ap suc (AllSame-length ts ts' h.1)

AllSame-parked_at : (ts ts' : List Tab) (i : ℕ) → AllSame ts ts' → parked_at ts' i ≡ parked_at ts i
AllSame-parked_at [] [] i h = refl
AllSame-parked_at [] (_ ∷ _) i h = absurd h
AllSame-parked_at (_ ∷ _) [] i h = absurd h
AllSame-parked_at (t ∷ ts) (t' ∷ ts') zero h = h.0.parked
AllSame-parked_at (t ∷ ts) (t' ∷ ts') (suc i) h = AllSame-parked_at ts ts' i h.1

AllSame-total : (ts ts' : List Tab) (s : SessionId) → AllSame ts ts' → total ts' s ≡ total ts s
unfolding total
AllSame-total [] [] s h = refl
AllSame-total [] (_ ∷ _) s h = absurd h
AllSame-total (_ ∷ _) [] s h = absurd h
AllSame-total (t ∷ ts) (t' ∷ ts') s h = ground (arith, h.0.root, AllSame-total ts ts' s h.1)

AllSame-AllOk : (ts ts' : List Tab) → AllSame ts ts' → AllOk ts → AllOk ts'
AllSame-AllOk [] [] h ok = tt
AllSame-AllOk [] (_ ∷ _) h ok = absurd h
AllSame-AllOk (_ ∷ _) [] h ok = absurd h
AllSame-AllOk (t ∷ ts) (t' ∷ ts') h ok = (
  record { focused = rw (h.0.root, h.0.focus) ok.0.focused; ratios = rw h.0.root ok.0.ratios },
  AllSame-AllOk ts ts' h.1 ok.1,
)

pub AllSame-Keeps :
    (w : Workspace) (ts' : List Tab)
    → IsValid w
    → AllSame w.tabs ts'
    → Keeps w (record w { tabs = ts' })
AllSame-Keeps w ts' v same =
    let len = AllSame-length w.tabs ts' same in
    record {
      valid = record {
        strip =
            IsStrip-of_Zoned (first_parked w.tabs) _
              (record {
                within = omega (arith, len, v.strip.zoned.within);
                parked_from = λ i lt.
                    AllSame-parked_at w.tabs ts' i same
                    ∙ v.strip.zoned.parked_from i (omega (arith, len));
              })
              (ground (arith, len, v.strip.in_range)) v.strip.on_unparked;
        tabs_ok = AllSame-AllOk w.tabs ts' same v.tabs_ok;
      };
      panes = λ s. omega (arith, AllSame-total w.tabs ts' s same);
    }

AllSame-set :
    (ts : List Tab) (i : ℕ) (t t' : Tab)
    → get_elem? ts i ≡ some t
    → SamePanes t t'
    → AllSame ts (set ts i t')
AllSame-set [] i t t' h same = tt
AllSame-set (u ∷ ts) zero t t' h same = (
  record {
    root = ground (arith, same.root);
    focus = ground (arith, same.focus);
    parked = ground (arith, same.parked);
  },
  AllSame-refl ts,
)
AllSame-set (u ∷ ts) (suc i) t t' h same = (SamePanes-refl u, AllSame-set ts i t t' h same)

-- A tab rewritten in its place, with its panes, its focus and its state as they were.
pub set_same-Keeps :
    (w : Workspace) (i : ℕ) (t t' : Tab)
    → IsValid w
    → get_elem? w.tabs i ≡ some t
    → SamePanes t t'
    → Keeps w (record w { tabs = set w.tabs i t' })
set_same-Keeps w i t t' v h same = AllSame-Keeps w _ v (AllSame-set w.tabs i t t' h same)

AllSame-update_first :
    (test : Tab → Bool) (f : Tab → Tab) (ts ts' : List Tab)
    → ((t : Tab) → SamePanes t (f t))
    → update_first test f ts ≡ some ts'
    → AllSame ts ts'
unfolding update_first
AllSame-update_first test f [] ts' same h = absurd (ground arith)
AllSame-update_first test f (t ∷ ts) ts' same h = elim (Bool-cases (test t)) [
  | inl e ↦ subst (AllSame (t ∷ ts)) (hit e) (same t, AllSame-refl ts)
  | inr e ↦ elim (Option-cases (update_first test f ts)) [
    | inl n ↦ absurd (ground arith)
    | inr (us, n) ↦
        subst (AllSame (t ∷ ts)) (missed e us n)
          (SamePanes-refl t, AllSame-update_first test f ts us same n)
  ]
]
  where
    hit : test t ≡ true → f t ∷ ts ≡ ts'
    hit e = ground arith

    missed : test t ≡ false → (us : List Tab) → update_first test f ts ≡ some us → t ∷ us ≡ ts'
    missed e us n = ground arith

set_live_title-SamePanes : (t : Tab) (title : Text) → SamePanes t (Tab.set_live_title t title)
unfolding Tab.set_live_title
set_live_title-SamePanes t title = record { root = refl; focus = refl; parked = refl }

pub set_recorded_titles-SamePanes :
    (t : Tab) (named described : Option Text)
    → SamePanes t (Tab.set_recorded_titles t named described)
unfolding Tab.set_recorded_titles
set_recorded_titles-SamePanes t named described =
    elim (Bool-cases
      (option_text_eq t.titles.named named && option_text_eq t.titles.described described)) [
        | inl e ↦ rw (e, Tab.set_recorded_titles) (SamePanes-refl t)
        | inr e ↦
            rw (e, Tab.set_recorded_titles) (record { root = refl; focus = refl; parked = refl })
      ]

-- The rewrite of the tab that hosts the session.
abbrev retitle : SessionId → Text → Tab → Tab
retitle session title tab =
    if Tab.first_session tab == session then Tab.set_live_title tab title else tab

retitle-SamePanes :
    (session : SessionId) (title : Text) (t : Tab) → SamePanes t (retitle session title t)
retitle-SamePanes session title t = elim (Bool-cases (Tab.first_session t == session)) [
  | inl e ↦ rw e (set_live_title-SamePanes t title)
  | inr e ↦ rw e (SamePanes-refl t)
]

pub set_live_title-Keeps :
    (w : Workspace) (session : SessionId) (title : Text)
    → IsValid w
    → Keeps w (set_live_title w session title).0
unfolding set_live_title
set_live_title-Keeps w session title v =
    elim (Option-cases
      (update_first (λ tab. contains (Tab.sessions tab) session) (retitle session title) w.tabs)) [
        | inl e ↦ rw (e, set_live_title) (unchanged w v)
        | inr (ts', e) ↦
            rw (e, set_live_title)
              (AllSame-Keeps w ts' v (
                AllSame-update_first _ (retitle session title) w.tabs ts'
                  (retitle-SamePanes session title) e))
      ]

pub rename_tab-Keeps :
    (w : Workspace) (index : ℕ) (name : Text) → IsValid w → Keeps w (rename_tab w index name).0
unfolding rename_tab
rename_tab-Keeps w index name v = elim (Option-cases (get_elem? w.tabs index)) [
  | inl e ↦ rw (e, rename_tab) (unchanged w v)
  | inr (t, e) ↦
      rw (e, rename_tab)
        (AllSame-Keeps w _ v
          (AllSame-set w.tabs index t _ e (record { root = refl; focus = refl; parked = refl })))
]
