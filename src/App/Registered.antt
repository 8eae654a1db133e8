-- ===== src/App/Registered.antt =====
-- The registry and the panes agree, and what keeps them so.
use termherd.Prelude.{
  ℕ, zero, suc, ◌+◌, ◌≤◌, ◌<◌, ◌≡◌, refl, inl, inr, arith, if◌then◌else◌, Option-cases, get_elem?,
  length, ltb,
}
use termherd.Pane.{SessionId}
use termherd.Tab
use termherd.Tab.{Tab}
use termherd.Workspace.Valid.{IsValid, Change, Keeps, total, nobody}
use termherd.Workspace.Changes.{new-IsValid}
use termherd.Workspace.Titles.{set_same-Keeps, set_recorded_titles-SamePanes}
use termherd.Registry.{registered, contains_key, u64_max}
use termherd.App.{App, new_app}
use termherd.App.Retitle.{retitle_tab, retitle_from, retitle_tabs, tab_recorded_titles}

-- The workspace is valid, a session is registered exactly where one pane hosts it (and no pane
-- hosts any other), and the registered ids are those already minted.
pub record IsRegistered (app : App) : Type 0 where
  pub valid : IsValid app.workspace
  pub hosted : (s : SessionId) → total app.workspace.tabs s ≡ registered app.sessions s
  pub minted :
      (s : SessionId) → 0 < registered app.sessions s → (0 < s) × (s ≤ app.sessions.next_id)
  pub in_range : app.sessions.next_id ≤ u64_max

pub new-IsRegistered : IsRegistered new_app
unfolding registered total contains_key
new-IsRegistered = record {
  valid = new-IsValid;
  hosted = λ s. ground arith;
  minted = λ s h. absurd (ground arith);
  in_range = omega arith;
}

module _ {app app' : App} (ok : IsRegistered app) where
  pub Change-IsRegistered :
      (gone came : SessionId → ℕ)
      → Change app.workspace app'.workspace gone came
      → ((s : SessionId) → registered app'.sessions s + gone s ≡ registered app.sessions s + came s)
      → ((s : SessionId) → 0 < registered app'.sessions s → (0 < s) × (s ≤ app'.sessions.next_id))
      → app'.sessions.next_id ≤ u64_max
      → IsRegistered app'
  Change-IsRegistered gone came change counts minted range = record {
    valid = change.valid;
    hosted = λ s. omega (arith, change.panes s, counts s, ok.hosted s);
    minted = minted;
    in_range = range;
  }

  -- The panes stay, and so do the registered ids.
  pub Keeps-IsRegistered :
      Keeps app.workspace app'.workspace
      → ((s : SessionId) → registered app'.sessions s ≡ registered app.sessions s)
      → app'.sessions.next_id ≡ app.sessions.next_id
      → IsRegistered app'
  Keeps-IsRegistered keeps same id =
      Change-IsRegistered nobody nobody keeps (λ s. omega (arith, same s))
        (λ s h. let (p, q) = ok.minted s (omega (arith, same s)) in (p, omega arith))
        (omega (arith, ok.in_range))

-- The panes of one session go, with its entry.
module _ {app app' : App} (ok : IsRegistered app) where
  pub fewer-IsRegistered :
      (gone : SessionId → ℕ)
      → Change app.workspace app'.workspace gone nobody
      → ((s : SessionId)
          → registered app'.sessions s ≡ (if ltb 0 (gone s) then 0 else registered app.sessions s))
      → ((s : SessionId) → registered app.sessions s ≤ 1)
      → app'.sessions.next_id ≡ app.sessions.next_id
      → IsRegistered app'
  fewer-IsRegistered gone change counts once id =
      Change-IsRegistered ok gone nobody change
        (λ s. ground (arith, change.panes s, counts s, once s, ok.hosted s))
        (λ s h. let (p, q) = ok.minted s (ground (arith, counts s)) in (p, omega arith))
        (omega (arith, ok.in_range))

retitle_tab-IsRegistered :
    (app : App) (index : ℕ) → IsRegistered app → IsRegistered (retitle_tab app index)
unfolding retitle_tab
retitle_tab-IsRegistered app index ok = elim (Option-cases (get_elem? app.workspace.tabs index)) [
  | inl e ↦ rw (e, retitle_tab) ok
  | inr (tab, e) ↦
      let (named, described) = tab_recorded_titles app index in
      rw (e, retitle_tab)
        (Keeps-IsRegistered ok
          (set_same-Keeps app.workspace index tab (Tab.set_recorded_titles tab named described)
            ok.valid e (set_recorded_titles-SamePanes tab named described))
          (λ s. refl) refl)
]

retitle_from-IsRegistered :
    (n index : ℕ) (app : App) → IsRegistered app → IsRegistered (retitle_from n index app)
unfolding retitle_from
retitle_from-IsRegistered zero index app ok = ok
retitle_from-IsRegistered (suc n) index app ok =
    retitle_from-IsRegistered n (suc index) (retitle_tab app index)
      (retitle_tab-IsRegistered app index ok)

pub retitle_tabs-IsRegistered : (app : App) → IsRegistered app → IsRegistered (retitle_tabs app)
unfolding retitle_tabs
retitle_tabs-IsRegistered app ok = retitle_from-IsRegistered (length app.workspace.tabs) 0 app ok
