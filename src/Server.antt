-- ===== src/Server.antt =====
-- src/harbor_http_server.cpp: the life of one `HarborHttpServer`, and `HarborServerState`, which
-- holds at most one. A lock held over a whole method makes that method one step.
pub mod Lifetime
pub mod Serve
use duckdb_flock.Base.{
  codes, ℕ, zero, suc, ◌+◌, ◌-◌, ◌≡◌, Bool, true, false, not, ◌&&◌, ◌||◌, Option, none, some, List,
  [], ◌∷◌, ◌++◌, Bytes, bytes_eq, Result, ok, err, ltb, leb, ◌==◌, if◌then◌else◌,
}
use duckdb_flock.Duckdb.{Database, StringUtil, get_setting_string}
use duckdb_flock.Auth.Manager.{AuthError}
use duckdb_flock.Auth.Cors.{init_cors_config}

-- `State`.
pub data ServerPhase : Type 0 where
  constructed bound listening closing closed : ServerPhase

-- The state of one server: whether the pointer to the library's server is set, whether the
-- listener's thread is joinable, whether the handlers exist, and whether they were told to stop.
pub record HarborHttpServer : Type 0 where
  pub phase : ServerPhase
  pub listen_uri : Bytes
  pub has_server : Bool
  pub accepting : Bool
  pub thread_joinable : Bool
  pub has_handlers : Bool
  pub handlers_stopped : Bool
  pub active_requests : ℕ
  pub cors_allowed_origins : List Bytes

pub data ServerError : Type 0 where
  wrong_state not_valid bind_failed cors_refused already_running no_server : ServerError
  no_thread no_handlers : ServerError

-- What a start meets: the library's server (`is_valid`, and `bind_to_port` on the URI), the database,
-- and what may throw: the start of the sweeper's thread, the construction and registration of the
-- handlers (`UiHandlers` reads settings and starts a thread), and the start of the listener's thread.
pub record Environment : Type 0 where
  pub is_valid : Bool
  pub bind_to_port : Bytes → Bool
  pub database : Option Database
  pub string_util : StringUtil
  pub sweeper_starts : Bool
  pub handlers_construct : Bool
  pub listener_starts : Bool

unfoldable pub new_server : Bytes → HarborHttpServer
new_server uri = record {
  phase = constructed;
  listen_uri = uri;
  has_server = false;
  accepting = false;
  thread_joinable = false;
  has_handlers = false;
  handlers_stopped = false;
  active_requests = 0;
  cors_allowed_origins = [];
}

unfoldable pub bind : Environment → HarborHttpServer → Result ServerError HarborHttpServer
bind h s = elim s.phase [
  | constructed ↦
      if not h.is_valid
      then err not_valid
      else (if not (h.bind_to_port s.listen_uri)
          then err bind_failed
          else ok (record s { has_server = true; phase = bound }))
  | _ ↦ err wrong_state
]

-- The list of allowed origins that the setting gives; a missing setting reads as the empty text.
unfoldable pub cors_config : Environment → Result AuthError (Unit {0}) × List Bytes
unfolding init_cors_config get_setting_string
cors_config h = elim h.database [
  | none ↦ (ok tt, [])
  | some d ↦ init_cors_config h.string_util (get_setting_string d (codes "harbor_cors_origins"))
]

-- `RegisterBuiltinHandlers`, without the warning that it logs.
unfoldable pub register_builtin_handlers :
    Environment → HarborHttpServer → Result ServerError HarborHttpServer
unfolding cors_config
register_builtin_handlers h s = elim s.phase [
  | bound ↦ elim (cors_config h).0 [
    | err _ ↦ err cors_refused
    | ok _ ↦
        if not h.sweeper_starts
        then err no_thread
        else (if not h.handlers_construct
            then err no_handlers
            else ok (record s { cors_allowed_origins = (cors_config h).1; has_handlers = true }))
  ]
  | _ ↦ err wrong_state
]

unfoldable pub start_listening :
    Environment → HarborHttpServer → Result ServerError HarborHttpServer
start_listening h s = elim s.phase [
  | bound ↦
      if not h.listener_starts
      then err no_thread
      else ok (record s { thread_joinable = true; accepting = true; phase = listening })
  | _ ↦ err wrong_state
]

unfoldable pub stop_accepting : HarborHttpServer → HarborHttpServer
stop_accepting s = elim s.phase [
  | closed ↦ s
  | closing ↦ s
  | _ ↦ record s { accepting = if s.has_server then false else s.accepting; phase = closing }
]

unfoldable pub shutdown_handlers : HarborHttpServer → HarborHttpServer
shutdown_handlers s = if s.has_handlers then record s { handlers_stopped = true } else s

-- `ActiveRequestGuard`: its constructor and its destructor.
unfoldable pub enter_request : HarborHttpServer → HarborHttpServer
enter_request s = record s { active_requests = suc s.active_requests }

unfoldable pub leave_request : HarborHttpServer → HarborHttpServer
leave_request s = record s { active_requests = s.active_requests - 1 }

-- `DrainActiveRequests`: what the wait returns, whenever it returns.
unfoldable pub drain_active_requests : HarborHttpServer → Bool
drain_active_requests s = s.active_requests == 0

-- `Close` up to its loop, and what follows the loop.
unfoldable pub begin_close : HarborHttpServer → HarborHttpServer
unfolding stop_accepting shutdown_handlers
begin_close s = shutdown_handlers (stop_accepting s)

unfoldable pub finish_close : HarborHttpServer → HarborHttpServer
finish_close s = record s {
  thread_joinable = false;
  has_handlers = false;
  has_server = false;
  phase = closed;
}

-- `HarborServerState`, with the servers that calls of `Stop` have taken out and not yet closed.
pub record HarborServerState : Type 0 where
  pub server : Option HarborHttpServer
  pub generation : ℕ
  pub stopped_generation : ℕ
  pub to_destroy : List HarborHttpServer

unfoldable pub initial_state : HarborServerState
initial_state = record { server = none; generation = 0; stopped_generation = 0; to_destroy = [] }

-- The sequence in `Start`: constructor, `Bind`, `RegisterBuiltinHandlers`, `StartListening`.
unfoldable pub start_server : Environment → Bytes → Result ServerError HarborHttpServer
unfolding new_server bind register_builtin_handlers start_listening
start_server h uri = elim (bind h (new_server uri)) [
  | err e ↦ err e
  | ok s ↦ elim (register_builtin_handlers h s) [ err e ↦ err e | ok t ↦ start_listening h t ]
]

-- `Start`: the exception, if any, and the state; a server that failed to start is gone.
unfoldable pub start :
    Environment → Bytes → HarborServerState → Option ServerError × HarborServerState
unfolding start_server
start h uri st = elim st.server [
  | some _ ↦ (some already_running, st)
  | none ↦ elim (start_server h uri) [
    | err e ↦ (some e, st)
    | ok s ↦ (none, record st { server = some s; generation = suc st.generation })
  ]
]

-- The locked part of `Stop`, which decides what it will return and wakes those that wait. The URIs
-- are the canonical ones. The server goes to `Close`, which runs after the lock is released, and only
-- then `Stop` returns true.
unfoldable pub stop : Bytes → HarborServerState → Bool × HarborServerState
unfolding begin_close
stop requested_uri st = elim st.server [
  | none ↦ (false, st)
  | some s ↦ if not (bytes_eq s.listen_uri requested_uri) then (false, st) else (
    true,
    record st { server = none; stopped_generation = st.generation; to_destroy = s ∷ st.to_destroy },
  )
]

-- `Wait`, its start: the generation that it waits for.
unfoldable pub wait : HarborServerState → Result ServerError ℕ
wait st = elim st.server [ none ↦ err no_server | some _ ↦ ok st.generation ]

-- The predicate that it waits for.
unfoldable pub wait_done : ℕ → HarborServerState → Bool
wait_done my_generation st = leb my_generation st.stopped_generation

unfoldable pub is_running : HarborServerState → Bool
is_running st = elim st.server [ none ↦ false | some _ ↦ true ]

-- Calls of the process: starts and stops, in the order in which they take the lock.
pub data LifecycleCall : Type 0 where
  starts : Environment → Bytes → LifecycleCall
  stops : Bytes → LifecycleCall

unfoldable pub lifecycle_step : LifecycleCall → HarborServerState → HarborServerState
unfolding start stop
lifecycle_step (starts h uri) st = (start h uri st).1
lifecycle_step (stops uri) st = (stop uri st).1

unfoldable pub lifecycle : List LifecycleCall → HarborServerState → HarborServerState
unfolding lifecycle_step
lifecycle [] st = st
lifecycle (c ∷ cs) st = lifecycle cs (lifecycle_step c st)
