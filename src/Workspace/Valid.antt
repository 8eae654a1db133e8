-- ===== src/Workspace/Valid.antt =====
-- The invariant of the workspace, and what each operation changes: panes come and go one at a
-- time, or with their tab.
use mathlib.Core.Option.{some-injective}
use termherd.Prelude.{
  ℕ, zero, suc, ◌+◌, ◌≡◌, refl, subst, Bool, List, [], ◌∷◌, some, arith, get_elem?, set, erase_idx,
  insert_idx, length-set,
}
use termherd.Pane.{SessionId}
use termherd.Pane.Edits.{pane_count}
use termherd.Tab.{Tab}
use termherd.Workspace.{Workspace, first_parked}
use termherd.Workspace.Tabs.{TabOk}
use termherd.Workspace.Zones.{Zoned-set}
use termherd.Workspace.Strip.{IsStrip, IsStrip-of_Zoned}
use termherd.Workspace.Relocate.{relocated}

-- How many panes of the strip host the session.
unfoldable pub total : List Tab → SessionId → ℕ
total [] s = 0
total (t ∷ ts) s = pane_count t.root s + total ts s

abbrev pub AllOk : List Tab → Type 0
AllOk [] = Unit
AllOk (t ∷ ts) = TabOk t × AllOk ts

pub AllOk-get_elem? :
    (ts : List Tab) (i : ℕ) (t : Tab) → AllOk ts → get_elem? ts i ≡ some t → TabOk t
AllOk-get_elem? [] i t ok h = absurd (ground arith)
AllOk-get_elem? (u ∷ ts) zero t ok h = subst TabOk (some-injective u t h) ok.0
AllOk-get_elem? (u ∷ ts) (suc i) t ok h = AllOk-get_elem? ts i t ok.1 h

AllOk-erase_idx : (ts : List Tab) (i : ℕ) → AllOk ts → AllOk (erase_idx ts i)
AllOk-erase_idx [] i ok = tt
AllOk-erase_idx (t ∷ ts) zero ok = ok.1
AllOk-erase_idx (t ∷ ts) (suc i) ok = (ok.0, AllOk-erase_idx ts i ok.1)

AllOk-insert_idx :
    (ts : List Tab) (i : ℕ) (t : Tab) → AllOk ts → TabOk t → AllOk (insert_idx ts i t)
AllOk-insert_idx ts zero t ok fresh = (fresh, ok)
AllOk-insert_idx [] (suc i) t ok fresh = (fresh, tt)
AllOk-insert_idx (u ∷ ts) (suc i) t ok fresh = (ok.0, AllOk-insert_idx ts i t ok.1 fresh)

AllOk-set : (ts : List Tab) (i : ℕ) (t : Tab) → AllOk ts → TabOk t → AllOk (set ts i t)
AllOk-set [] i t ok fresh = tt
AllOk-set (u ∷ ts) zero t ok fresh = (fresh, ok.1)
AllOk-set (u ∷ ts) (suc i) t ok fresh = (ok.0, AllOk-set ts i t ok.1 fresh)

pub total-erase_idx :
    (ts : List Tab) (i : ℕ) (t : Tab) (s : SessionId)
    → get_elem? ts i ≡ some t
    → total (erase_idx ts i) s + pane_count t.root s ≡ total ts s
unfolding total
total-erase_idx [] i t s h = absurd (ground arith)
total-erase_idx (u ∷ ts) zero t s h = ground arith
total-erase_idx (u ∷ ts) (suc i) t s h = omega (arith, total-erase_idx ts i t s h)

pub total-insert_idx :
    (ts : List Tab) (i : ℕ) (t : Tab) (s : SessionId)
    → total (insert_idx ts i t) s ≡ total ts s + pane_count t.root s
unfolding total
total-insert_idx ts zero t s = omega arith
total-insert_idx [] (suc i) t s = omega arith
total-insert_idx (u ∷ ts) (suc i) t s = omega (arith, total-insert_idx ts i t s)

pub total-set :
    (ts : List Tab) (i : ℕ) (t t' : Tab) (s : SessionId)
    → get_elem? ts i ≡ some t
    → total (set ts i t') s + pane_count t.root s ≡ total ts s + pane_count t'.root s
unfolding total
total-set [] i t t' s h = absurd (ground arith)
total-set (u ∷ ts) zero t t' s h = ground arith
total-set (u ∷ ts) (suc i) t t' s h = omega (arith, total-set ts i t t' s h)

pub record IsValid (w : Workspace) : Type 0 where
  pub strip : IsStrip w
  pub tabs_ok : AllOk w.tabs

-- A valid workspace after an operation, over which the panes `gone` went and the panes `came` came.
pub record Change (w w' : Workspace) (gone came : SessionId → ℕ) : Type 0 where
  pub valid : IsValid w'
  pub panes : (s : SessionId) → total w'.tabs s + gone s ≡ total w.tabs s + came s

abbrev pub nobody : SessionId → ℕ
nobody _ = 0

abbrev pub Keeps : Workspace → Workspace → Type 0
Keeps w w' = Change w w' nobody nobody

pub unchanged : (w : Workspace) → IsValid w → Keeps w w
unchanged w v = record { valid = v; panes = λ s. refl }

module _ (w : Workspace) (v : IsValid w) where
  -- One tab rewritten in its place.
  pub set-Change :
      (i : ℕ) (t t' : Tab) (gone came : SessionId → ℕ)
      → get_elem? w.tabs i ≡ some t
      → t'.parked ≡ t.parked
      → TabOk t'
      → ((s : SessionId) → pane_count t'.root s + gone s ≡ pane_count t.root s + came s)
      → Change w (record w { tabs = set w.tabs i t' }) gone came
  set-Change i t t' gone came h same ok counts = record {
    valid = record {
      strip =
          IsStrip-of_Zoned (first_parked w.tabs) _
            (Zoned-set (first_parked w.tabs) w.tabs i t t' v.strip.zoned h same)
            (ground (arith, v.strip.in_range, length-set w.tabs i t')) v.strip.on_unparked;
      tabs_ok = AllOk-set w.tabs i t' v.tabs_ok ok;
    };
    panes = λ s. omega (arith, total-set w.tabs i t t' s h, counts s);
  }

-- The tabs as they were, or with one of them moved.
pub data Moved (w w' : Workspace) : Type 0 where
  stays : w'.tabs ≡ w.tabs → Moved w w'
  moved :
      (from to : ℕ) (parked : Bool) (t : Tab)
      → get_elem? w.tabs from ≡ some t
      → w'.tabs ≡ relocated w from to parked t
      → Moved w w'

parked-TabOk : (t : Tab) (parked : Bool) → TabOk t → TabOk (record t { parked = parked })
parked-TabOk t parked ok = record { focused = ok.focused; ratios = ok.ratios }

-- Moving a tab within the strip changes no pane.
pub Moved-Keeps : {w w' : Workspace} → IsValid w → IsStrip w' → Moved w w' → Keeps w w'
Moved-Keeps {w} v strip (stays e) = record {
  valid = record { strip = strip; tabs_ok = rw e v.tabs_ok };
  panes = λ s. rw e refl;
}
Moved-Keeps {w} v strip (moved from to parked t h e) = record {
  valid = record {
    strip = strip;
    tabs_ok = rw e (
        AllOk-insert_idx (erase_idx w.tabs from) to _ (AllOk-erase_idx w.tabs from v.tabs_ok)
          (parked-TabOk t parked (AllOk-get_elem? w.tabs from t v.tabs_ok h)));
  };
  panes = λ s. rw e (
      omega (
        arith,
        total-insert_idx (erase_idx w.tabs from) to (record t { parked = parked }) s,
        total-erase_idx w.tabs from t s h,
      ));
}

pub insert-Change :
    (w w' : Workspace) (i : ℕ) (t : Tab)
    → IsValid w
    → w'.tabs ≡ insert_idx w.tabs i t
    → IsStrip w'
    → TabOk t
    → Change w w' nobody (pane_count t.root)
insert-Change w w' i t v e strip ok = record {
  valid = record { strip = strip; tabs_ok = rw e (AllOk-insert_idx w.tabs i t v.tabs_ok ok) };
  panes = λ s. rw e (omega (arith, total-insert_idx w.tabs i t s));
}

pub erase-Change :
    (w w' : Workspace) (i : ℕ) (t : Tab)
    → IsValid w
    → get_elem? w.tabs i ≡ some t
    → w'.tabs ≡ erase_idx w.tabs i
    → IsStrip w'
    → Change w w' (pane_count t.root) nobody
erase-Change w w' i t v h e strip = record {
  valid = record { strip = strip; tabs_ok = rw e (AllOk-erase_idx w.tabs i v.tabs_ok) };
  panes = λ s. rw e (omega (arith, total-erase_idx w.tabs i t s h));
}
