-- ===== src/Registry.antt =====
-- crates/core/src/app/session.rs: `Sessions`, the registry of the live sessions and the source of
-- their ids. The hash map is the list of its entries, each key once.
use termherd.Prelude.{
  ℕ, ◌+◌, ◌-◌, ◌^◌, ◌≡◌, refl, Bool, not, List, [], ◌∷◌, Option, none, some, ◌==◌, leb,
  if◌then◌else◌, any, arith, length,
}
use termherd.Pane.{SessionId}
use termherd.Session.{LiveSession, is_exited, is_some}

pub record Sessions : Type 0 where
  pub map : List LiveSession
  pub next_id : ℕ

abbrev pub empty : Sessions
empty = record { map = []; next_id = 0 }

abbrev pub lookup : List LiveSession → SessionId → Option LiveSession
lookup [] s = none
lookup (live ∷ rest) s = if live.id == s then some live else lookup rest s

unfoldable pub get : Sessions → SessionId → Option LiveSession
get sessions s = lookup sessions.map s

unfoldable pub contains_key : Sessions → SessionId → Bool
contains_key sessions s = is_some (lookup sessions.map s)

abbrev pub without : List LiveSession → SessionId → List LiveSession
without [] s = []
without (live ∷ rest) s = if live.id == s then without rest s else live ∷ without rest s

unfoldable pub remove : Sessions → SessionId → Sessions
remove sessions s = record sessions { map = without sessions.map s }

unfoldable pub insert : Sessions → LiveSession → Sessions
insert sessions live = record sessions { map = live ∷ without sessions.map live.id }

-- `get_mut`, and the change that its caller makes; `f` keeps the id.
abbrev pub update : List LiveSession → SessionId → (LiveSession → LiveSession) → List LiveSession
update [] s f = []
update (live ∷ rest) s f = if live.id == s then f live ∷ rest else live ∷ update rest s f

unfoldable pub update_session : Sessions → SessionId → (LiveSession → LiveSession) → Sessions
update_session sessions s f = record sessions { map = update sessions.map s f }

abbrev pub u64_max : ℕ
u64_max = 2 ^ 64 - 1

-- `checked_add`; the id source stays as it was where it overflows.
unfoldable pub allocate : Sessions → Sessions × Option SessionId
allocate sessions =
    if leb u64_max sessions.next_id
    then (sessions, none)
    else (record sessions { next_id = sessions.next_id + 1 }, some (sessions.next_id + 1))

-- `for id in &sessions { self.sessions.remove(id) }`.
unfoldable pub remove_all : Sessions → List SessionId → Sessions
remove_all sessions [] = sessions
remove_all sessions (s ∷ ss) = remove_all (remove sessions s) ss

abbrev running : List LiveSession → List LiveSession
running [] = []
running (live ∷ rest) =
    let more = running rest in if not (is_exited live.status) then live ∷ more else more

unfoldable pub count_running : Sessions → ℕ
count_running sessions = length (running sessions.map)

-- Whether a session is registered, as a number.
unfoldable pub registered : Sessions → SessionId → ℕ
registered sessions s = if contains_key sessions s then 1 else 0

lookup-without :
    (map : List LiveSession) (gone s : SessionId)
    → lookup (without map gone) s ≡ (if gone == s then none else lookup map s)
lookup-without [] gone s = ground arith
lookup-without (live ∷ rest) gone s = ground (arith, lookup-without rest gone s)

-- A registered id is found until it is removed, and no other is.
pub get-remove :
    (sessions : Sessions) (gone s : SessionId)
    → get (remove sessions gone) s ≡ (if gone == s then none else get sessions s)
unfolding get remove
get-remove sessions gone s = lookup-without sessions.map gone s

pub get-insert :
    (sessions : Sessions) (live : LiveSession) (s : SessionId)
    → get (insert sessions live) s ≡ (if live.id == s then some live else get sessions s)
unfolding get insert
get-insert sessions live s = ground (arith, lookup-without sessions.map live.id s)

lookup-update :
    (map : List LiveSession) (t s : SessionId) (f : LiveSession → LiveSession)
    → ((live : LiveSession) → (f live).id ≡ live.id)
    → is_some (lookup (update map t f) s) ≡ is_some (lookup map s)
lookup-update [] t s f h = refl
lookup-update (live ∷ rest) t s f h = ground (arith, lookup-update rest t s f h, h live)

pub registered-update_session :
    (sessions : Sessions) (t s : SessionId) (f : LiveSession → LiveSession)
    → ((live : LiveSession) → (f live).id ≡ live.id)
    → registered (update_session sessions t f) s ≡ registered sessions s
unfolding registered update_session contains_key
registered-update_session sessions t s f h = ground (arith, lookup-update sessions.map t s f h)

pub registered-remove :
    (sessions : Sessions) (gone s : SessionId)
    → registered (remove sessions gone) s ≡ (if gone == s then 0 else registered sessions s)
unfolding registered remove contains_key
registered-remove sessions gone s = ground (arith, lookup-without sessions.map gone s)

pub registered-insert :
    (sessions : Sessions) (live : LiveSession) (s : SessionId)
    → registered (insert sessions live) s ≡ (if live.id == s then 1 else registered sessions s)
unfolding registered insert contains_key
registered-insert sessions live s = ground (arith, lookup-without sessions.map live.id s)

pub registered-remove_all :
    (sessions : Sessions) (gone : List SessionId) (s : SessionId)
    → registered (remove_all sessions gone) s
      ≡ (if any (λ g. g == s) gone then 0 else registered sessions s)
unfolding remove_all
registered-remove_all sessions [] s = refl
registered-remove_all sessions (g ∷ gs) s =
    ground (arith, registered-remove_all (remove sessions g) gs s, registered-remove sessions g s)

pub next_id-remove_all :
    (sessions : Sessions) (gone : List SessionId)
    → (remove_all sessions gone).next_id ≡ sessions.next_id
unfolding remove_all remove
next_id-remove_all sessions [] = refl
next_id-remove_all sessions (g ∷ gs) = next_id-remove_all (remove sessions g) gs

pub get-registered :
    (sessions : Sessions) (s : SessionId) (live : LiveSession)
    → get sessions s ≡ some live
    → registered sessions s ≡ 1
unfolding get registered contains_key
get-registered sessions s live h = ground arith
