-- ===== src/App/Dead.antt =====
-- A session that has ended never comes back to life.
pub mod Handlers
pub mod Runs
use termherd.Prelude.{
  ℕ, zero, suc, ◌+◌, ◌≤◌, ◌<◌, ◌≡◌, ◌≢◌, refl, ap, sym, ◌∙◌, subst, inl, inr, Bool, true, false,
  ◌&&◌, ◌||◌, not, List, [], ◌∷◌, Option, none, some, arith, ◌==◌, if◌then◌else◌, Option-cases,
  Bool-cases, get_elem?, leb, length,
}
use mathlib.Core.Option.{some-injective}
use termherd.Text.{Text}
use termherd.Pane.{SessionId, SplitDir}
use termherd.Workspace
use termherd.Workspace.Panes
use termherd.Session.{
  LiveSession, LaunchSpec, SessionStatus, ForegroundJob, SessionFile, is_exited, new_session, shell,
  remember_proven_id,
}
use termherd.Registry.{
  Sessions, lookup, update, get, insert, remove, remove_all, update_session, get-remove, get-insert,
  u64_max, contains_key,
}
use termherd.Effect.{Effect}
use termherd.App.{App, ClosedTab, is_live}
use termherd.App.Retitle.{
  retitle_tab, retitle_from, retitle_tabs, rename_tab, tab_names_through_claude,
}
use termherd.App.Lifecycle.{
  launch, split_focused, focused_cwd, status_changed, with_status, with_job, with_file,
  foreground_job_changed, session_file_read, session_spawned, session_cwd_changed,
}
use termherd.App.Closing.{
  remember_closed_tab, close_tab, release_closed_pane, close_one_pane, only_pane_at, close_pane_of,
  close_focused_pane, mark_exited, pty_exited, pop_closed, restore_name, reopen_closed_tab,
}
use termherd.App.Overlays.{
  update_meta, update_repo_meta, rename_session, toggle_collapsed, toggle_expanded,
}
use termherd.App.Recorder.{toggle_record, record_tick}
use termherd.App.RepoLink.{open_repo, working_in_either}
use termherd.App.TabViews.{set_tab_color, tab_keeper}
use termherd.App.Dispatch
use termherd.App.Dispatch.{Event, dispatch, apply}
use termherd.App.Handlers.{allocated, exhausted}
use termherd.App.Reachable.{state-apply}

-- No entry, or that of a session that has exited.
abbrev pub ended_in : Option LiveSession → Bool
ended_in none = true
ended_in (some live) = is_exited live.status

-- The ids only grow, and no session already minted comes back.
pub record Onward (before after : Sessions) : Type 0 where
  pub ids : before.next_id ≤ after.next_id
  pub dead :
      (s : SessionId)
      → s ≤ before.next_id
      → ended_in (get before s) ≡ true
      → ended_in (get after s) ≡ true

pub Onward-refl : (sessions : Sessions) → Onward sessions sessions
Onward-refl sessions = record { ids = omega arith; dead = λ s le h. h }

pub Onward-same : (before after : Sessions) → after ≡ before → Onward before after
Onward-same before after e = rw e (Onward-refl before)

pub remove-Onward :
    (sessions : Sessions) (gone : SessionId) → Onward sessions (remove sessions gone)
remove-Onward sessions gone = record {
  ids = unfold remove in omega arith;
  dead = λ s le h. ground (arith, get-remove sessions gone s);
}

pub Onward-trans : (r s t : Sessions) → Onward r s → Onward s t → Onward r t
Onward-trans r s t f g = record {
  ids = omega (arith, f.ids, g.ids);
  dead = λ u le h. g.dead u (omega (arith, f.ids)) (f.dead u le h);
}

pub remove_all-Onward :
    (sessions : Sessions) (gone : List SessionId) → Onward sessions (remove_all sessions gone)
unfolding remove_all
remove_all-Onward sessions [] = Onward-refl sessions
remove_all-Onward sessions (g ∷ gs) =
    Onward-trans sessions (remove sessions g) _ (remove-Onward sessions g)
      (remove_all-Onward (remove sessions g) gs)

pub insert-Onward :
    (sessions : Sessions) (live : LiveSession)
    → live.id ≡ sessions.next_id + 1
    → Onward sessions (insert (record sessions { next_id = sessions.next_id + 1 }) live)
insert-Onward sessions live id = record {
  ids = unfold insert in omega arith;
  dead = λ s le h.
      let same : get (record sessions { next_id = sessions.next_id + 1 }) s ≡ get sessions s =
        unfold get in refl in
      ground (arith, get-insert (record sessions { next_id = sessions.next_id + 1 }) live s);
}

-- An update that leaves the ended ended.
ended-update :
    (map : List LiveSession) (t s : SessionId) (f : LiveSession → LiveSession)
    → ((live : LiveSession) → (f live).id ≡ live.id)
    → ((live : LiveSession) → is_exited live.status ≡ true → is_exited (f live).status ≡ true)
    → ended_in (lookup map s) ≡ true
    → ended_in (lookup (update map t f) s) ≡ true
ended-update [] t s f id keeps h = refl
ended-update (live ∷ rest) t s f id keeps h =
    ground (arith, ended-update rest t s f id keeps, id live, keeps live)

pub update_session-Onward :
    (sessions : Sessions) (t : SessionId) (f : LiveSession → LiveSession)
    → ((live : LiveSession) → (f live).id ≡ live.id)
    → ((live : LiveSession) → is_exited live.status ≡ true → is_exited (f live).status ≡ true)
    → Onward sessions (update_session sessions t f)
unfolding update_session get
update_session-Onward sessions t f id keeps = record {
  ids = omega arith;
  dead = λ s le h. ended-update sessions.map t s f id keeps h;
}

-- An update of a session that has not ended.
lookup-update_other :
    (map : List LiveSession) (t s : SessionId) (f : LiveSession → LiveSession)
    → ((live : LiveSession) → (f live).id ≡ live.id)
    → t ≢ s
    → lookup (update map t f) s ≡ lookup map s
lookup-update_other [] t s f id ne = refl
lookup-update_other (live ∷ rest) t s f id ne =
    ground (arith, lookup-update_other rest t s f id ne, id live)

pub update_live-Onward :
    (sessions : Sessions) (t : SessionId) (live : LiveSession) (f : LiveSession → LiveSession)
    → ((live : LiveSession) → (f live).id ≡ live.id)
    → get sessions t ≡ some live
    → is_exited live.status ≡ false
    → Onward sessions (update_session sessions t f)
unfolding update_session get
update_live-Onward sessions t live f id found alive = record {
  ids = omega arith;
  dead = λ s le h. elim (Bool-cases (t == s)) [
    | inl same ↦ let e : t ≡ s = ground arith in absurd (ground (arith, ap (lookup sessions.map) e))
    | inr other ↦ ground (arith, lookup-update_other sessions.map t s f id (λ e. ground arith))
  ];
}
