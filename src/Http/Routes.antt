-- ===== src/Http/Routes.antt =====
-- The routes of src/sql_handlers.cpp, src/admin_handlers.cpp and src/auth_handlers.cpp that change
-- something or list sessions, and the messages of POST /quack that change the map of sessions, as one
-- step on what they share.
pub mod Grounds
pub mod Handlers
pub mod Changes
pub mod Isolation
pub mod Sequence
use duckdb_flock.Base.{ℕ, Bool, Bytes, Option, Result}
use duckdb_flock.Crypto.Openssl.{Openssl}
use duckdb_flock.Http.{HttpRequest, HttpResponse}
use duckdb_flock.Http.Sql.{
  Environment, HandlerState, handle_session_new, handle_session_delete, handle_sql_cancel,
}
use duckdb_flock.Http.Sql.Admission.{Parser, handle_sql}
use duckdb_flock.Http.Sql.Guarded.{Moment, after_admission}
use duckdb_flock.Http.Quack.{QuackMessage, handle_message}
use duckdb_flock.Http.Admin.{handle_sessions, handle_interrupt, checkpoint_gates}
use duckdb_flock.Http.Auth.{handle_login, handle_logout}

-- A route, with what its handler takes from outside: the locks that others hold, the id that
-- `GenerateSessionId` gives, the moment at which a statement of /sql gets its guard, if it comes so
-- far, and the printing of times.
pub data Route : Type 0 where
  post_sql : (ℕ → Bool) → Option Moment → Route
  post_quack : QuackMessage → Route
  post_sessions_new : Result Bytes Bytes → Route
  delete_session post_sql_cancel get_sessions post_interrupt post_checkpoint post_logout : Route
  post_login : (ℕ → Bytes) → Route

module _ (o : Openssl) (e : Environment) (p : Parser) where
  -- What a request leaves, once its guards are gone. What a statement of /sql does inside DuckDB, and
  -- the checkpoint behind its gates, are not in this state.
  unfoldable pub serve : Route → HttpRequest → HttpResponse → HandlerState o → HandlerState o
  unfolding handle_sql after_admission handle_message handle_session_new handle_session_delete
      handle_sql_cancel handle_sessions handle_interrupt checkpoint_gates handle_login handle_logout
  serve (post_sql busy at) req res st =
      let (admitted, st1) = handle_sql o e p req busy st in after_admission e at admitted st1
  serve (post_quack message) req res st = record st {
    sessions = handle_message e message st.sessions;
  }
  serve (post_sessions_new generated) req res st = (handle_session_new o e generated req res st).1
  serve delete_session req res st = (handle_session_delete o e req res st).1
  serve post_sql_cancel req res st = (handle_sql_cancel o e req res st).1
  serve get_sessions req res st = (handle_sessions o e req res st).1
  serve post_interrupt req res st = (handle_interrupt o e req res st).1
  serve post_checkpoint req res st = (checkpoint_gates o e req res st).1
  serve (post_login iso_utc) req res st = (handle_login o e iso_utc req res st).1
  serve post_logout req res st = (handle_logout o e req res st).1
