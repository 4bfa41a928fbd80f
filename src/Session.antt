-- ===== src/Session.antt =====
-- src/harbor_session.cpp and src/include/harbor_session.hpp: `HarborSession` and `SessionManager`.
pub mod Assoc
pub mod WellFormed
pub mod Ownership
use duckdb_flock.Base.{
  ℕ, zero, suc, ◌+◌, ◌*◌, ◌%◌, ◌^◌, ◌<◌, Bool, true, false, not, ◌&&◌, ◌||◌, Option, none, some,
  List, [], ◌∷◌, ◌++◌, Bytes, codes, bytes_eq, is_empty, length, take, get_elem?, set, all, Result,
  ok, err, ◌>>=◌, ◌>>◌, throw_if, ltb, leb, ◌==◌, if◌then◌else◌, map,
}
use duckdb_flock.Duckdb.{Database, null}
use duckdb_flock.Crypto.Hex.{is_valid_principal_hex}
use Assoc.{find_key, erase_key}

pub data InterruptCause : Type 0 where
  no_cause timeout user_cancel disconnect : InterruptCause

-- Times are milliseconds of the steady clock. `interrupts` counts the calls of
-- `Connection::Interrupt`, which is DuckDB's.
pub record HarborSession : Type 0 where
  pub session_id : Bytes
  pub owner : Bytes
  pub created_at : ℕ
  pub last_query : Bytes
  pub query_in_flight : Bool
  pub query_generation : ℕ
  pub query_deadline_ms : ℕ
  pub timed_out_generation : ℕ
  pub interrupt_cause : InterruptCause
  pub interrupts : ℕ

unfoldable pub new_session : Bytes → Bytes → ℕ → HarborSession
new_session id owner now = record {
  session_id = id;
  owner = owner;
  created_at = now;
  last_query = [];
  query_in_flight = false;
  query_generation = 0;
  query_deadline_ms = 0;
  timed_out_generation = 0;
  interrupt_cause = no_cause;
  interrupts = 0;
}

-- A `shared_ptr<HarborSession>` is a position in `objects`, so that a session outlives its entry in
-- the map. A `steady_clock` reading is an argument of the calls.
pub record SessionManager : Type 0 where
  pub objects : List HarborSession
  pub active : List (Bytes × ℕ)

abbrev pub new_manager : SessionManager
new_manager = record { objects = []; active = [] }

pub data SessionError : Type 0 where
  id_collision database_closed owner_malformed session_limit : SessionError

abbrev pub default_max_sessions : ℕ
default_max_sessions = 1024

-- `ReadMaxSessionsSetting` at what `db.lock()` gives.
unfoldable pub read_max_sessions : Option Database → ℕ
read_max_sessions none = default_max_sessions
read_max_sessions (some db) = elim (db.try_get_current_setting (codes "harbor_max_sessions")) [
  | none ↦ default_max_sessions
  | some null ↦ default_max_sessions
  | some v ↦ elim (db.get_uint64 v) [
    | none ↦ default_max_sessions
    | some n ↦ if n == 0 then default_max_sessions else n
  ]
]

-- `active[session_id] = session` with a new session.
unfoldable pub add_session : SessionManager → HarborSession → SessionManager
add_session m s = record {
  objects = m.objects ++ s ∷ [];
  active = (s.session_id, length m.objects) ∷ m.active;
}

abbrev pub is_some {ℓ} : {A : Type ℓ} → Option A → Bool
is_some none = false
is_some (some a) = true

unfoldable pub create_new_connection :
    SessionManager → Option Database → ℕ → Bytes → Result SessionError SessionManager
create_new_connection m db now session_id = do
  throw_if (is_some (find_key session_id m.active)) id_collision
  throw_if (not (is_some db)) database_closed
  ok (add_session m (new_session session_id [] now))

unfoldable pub get_connection : SessionManager → Bytes → Option ℕ
get_connection m session_id = find_key session_id m.active

unfoldable pub disconnect_connection : SessionManager → Bytes → Bool × SessionManager
disconnect_connection m session_id = elim (find_key session_id m.active) [
  | none ↦ (false, m)
  | some r ↦ (true, record m { active = erase_key session_id m.active })
]

unfoldable pub create_owned_session :
    SessionManager → Option Database → ℕ → Bytes → Bytes → Result SessionError SessionManager
create_owned_session m db now session_id owner = do
  throw_if (not (is_valid_principal_hex owner)) owner_malformed
  throw_if (leb (read_max_sessions db) (length m.active)) session_limit
  throw_if (is_some (find_key session_id m.active)) id_collision
  throw_if (not (is_some db)) database_closed
  ok (add_session m (new_session session_id owner now))

-- `it->second->owner_principal_id == principal_id`.
unfoldable pub is_owned_by : SessionManager → Bytes → ℕ → Bool
is_owned_by m principal_id r = elim (get_elem? m.objects r) [
  | none ↦ false
  | some s ↦ bytes_eq s.owner principal_id
]

unfoldable pub lookup_owned_session : SessionManager → Bytes → Bytes → Option ℕ
lookup_owned_session m session_id principal_id = elim (find_key session_id m.active) [
  | none ↦ none
  | some r ↦ if is_owned_by m principal_id r then some r else none
]

unfoldable pub destroy_owned_session : SessionManager → Bytes → Bytes → Bool × SessionManager
destroy_owned_session m session_id principal_id = elim (find_key session_id m.active) [
  | none ↦ (false, m)
  | some r ↦
      if is_owned_by m principal_id r
      then (true, record m { active = erase_key session_id m.active })
      else (false, m)
]

-- The loop of `DestroyAllOwnedBy`: what is left, and the count.
pub destroy_loop : SessionManager → Bytes → List (Bytes × ℕ) → List (Bytes × ℕ) × ℕ
destroy_loop m principal_id [] = ([], 0)
destroy_loop m principal_id ((k, r) ∷ entries) =
    let (left, destroyed) = destroy_loop m principal_id entries in
    if is_owned_by m principal_id r then (left, suc destroyed) else ((k, r) ∷ left, destroyed)

unfoldable pub destroy_all_owned_by : SessionManager → Bytes → ℕ × SessionManager
unfolding destroy_loop
destroy_all_owned_by m principal_id =
    if is_empty principal_id
    then (0, m)
    else let (left, destroyed) = destroy_loop m principal_id m.active in
      (destroyed, record m { active = left })

unfoldable pub active_count : SessionManager → ℕ
active_count m = length m.active

pub record SessionSnapshot : Type 0 where
  pub session_id : Bytes
  pub owner : Bytes
  pub created_at : ℕ
  pub query_in_flight : Bool
  pub last_query : Bytes
  pub last_query_truncated : Bool

unfoldable pub snapshot_of : ℕ → HarborSession → SessionSnapshot
snapshot_of max_chars s = record {
  session_id = s.session_id;
  owner = s.owner;
  created_at = s.created_at;
  query_in_flight = s.query_in_flight;
  last_query =
      if max_chars == 0
      then []
      else if ltb max_chars (length s.last_query)
      then take max_chars s.last_query
      else s.last_query;
  last_query_truncated = not (max_chars == 0) && ltb max_chars (length s.last_query);
}

-- The sessions that the map points to, in its order.
unfoldable pub sessions_of : List HarborSession → List (Bytes × ℕ) → List HarborSession
sessions_of objects [] = []
sessions_of objects ((k, r) ∷ entries) = elim (get_elem? objects r) [
  | none ↦ sessions_of objects entries
  | some s ↦ s ∷ sessions_of objects entries
]

unfoldable pub snapshot : SessionManager → ℕ → List SessionSnapshot
unfolding snapshot_of sessions_of
snapshot m max_chars = map (snapshot_of max_chars) (sessions_of m.objects m.active)

-- A change of one session through its pointer.
unfoldable pub update_object :
    (HarborSession → HarborSession) → ℕ → List HarborSession → List HarborSession
update_object f r objects = elim (get_elem? objects r) [
  | none ↦ objects
  | some s ↦ set objects r (f s)
]

unfoldable pub interrupt : InterruptCause → HarborSession → HarborSession
interrupt cause s = record s { interrupt_cause = cause; interrupts = suc s.interrupts }

unfoldable pub interrupt_session : SessionManager → Bytes → InterruptCause → Bool × SessionManager
unfolding update_object interrupt
interrupt_session m session_id cause = elim (find_key session_id m.active) [
  | none ↦ (false, m)
  | some r ↦ (true, record m { objects = update_object (interrupt cause) r m.objects })
]

-- The tests of the sweep at one session.
unfoldable pub is_overdue : ℕ → HarborSession → Bool
is_overdue now s =
    s.query_in_flight && (not (s.query_deadline_ms == 0) && ltb s.query_deadline_ms now)

unfoldable pub mark_timed_out : HarborSession → HarborSession
mark_timed_out s = record s {
  timed_out_generation = s.query_generation;
  interrupts = suc s.interrupts;
}

-- One session of the sweep, as long as nothing runs between its steps.
unfoldable pub sweep_session : ℕ → HarborSession → HarborSession
unfolding is_overdue mark_timed_out
sweep_session now s = if is_overdue now s then mark_timed_out s else s

sweep_loop : ℕ → List (Bytes × ℕ) → List HarborSession → List HarborSession
unfolding update_object
sweep_loop now [] objects = objects
sweep_loop now ((k, r) ∷ entries) objects =
    sweep_loop now entries (update_object (sweep_session now) r objects)

unfoldable pub timeout_sweep_once : SessionManager → ℕ → SessionManager
unfolding sweep_loop
timeout_sweep_once m now = record m { objects = sweep_loop now m.active m.objects }

-- A call of the manager, with the database and the clock as it finds them.
pub data Call : Type 0 where
  connects : Option Database → ℕ → Bytes → Call
  creates : Option Database → ℕ → Bytes → Bytes → Call
  disconnects : Bytes → Call
  destroys : Bytes → Bytes → Call
  destroys_all : Bytes → Call
  interrupts_one : Bytes → InterruptCause → Call
  sweeps : ℕ → Call

-- A call that throws leaves the manager as it was.
abbrev pub kept : SessionManager → Result SessionError SessionManager → SessionManager
kept m (ok m') = m'
kept m (err e) = m

unfoldable pub step : SessionManager → Call → SessionManager
step m (connects db now id) = kept m (create_new_connection m db now id)
step m (creates db now id owner) = kept m (create_owned_session m db now id owner)
step m (disconnects id) = (disconnect_connection m id).1
step m (destroys id principal) = (destroy_owned_session m id principal).1
step m (destroys_all principal) = (destroy_all_owned_by m principal).1
step m (interrupts_one id cause) = (interrupt_session m id cause).1
step m (sweeps now) = timeout_sweep_once m now

unfoldable pub run : SessionManager → List Call → SessionManager
run m [] = m
run m (c ∷ calls) = run (step m c) calls
