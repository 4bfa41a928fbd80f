-- ===== src/Http/Sql/Guarded.antt =====
-- src/sql_handlers.cpp: what the rest of `HandleSql` writes into the session of its statement.
use duckdb_flock.Base.{ℕ, Option, none, some, Bytes, Result, ok, err}
use duckdb_flock.Crypto.Openssl.{Openssl}
use duckdb_flock.Session.{HarborSession, SessionManager, update_object}
use duckdb_flock.Timeout.{arm, disarm, read_query_timeout_seconds}
use duckdb_flock.Http.Sql.{Environment, HandlerState}
use duckdb_flock.Http.Sql.Admission.{Parser, Reason, Admitted}

-- When the guard of a statement is made: the clock, and what a deadline is that does not fit into it.
pub record Moment : Type 0 where
  pub now : ℕ
  pub overflowed : ℕ

-- What a guard leaves of a session, from its constructor to its destructor.
unfoldable pub guarded : Bytes → Moment → ℕ → HarborSession → HarborSession
unfolding arm disarm
guarded sql at seconds s = let (g, t) = arm s sql at.overflowed at.now seconds in disarm g t

unfoldable pub timeout_seconds : Environment → ℕ
unfolding read_query_timeout_seconds
timeout_seconds e = elim e.db [ none ↦ 0 | some db ↦ read_query_timeout_seconds db ]

-- An ephemeral connection has no session. Without a moment the preparation or the parameters failed,
-- and the handler returned before it made the guard.
unfoldable pub run_statement :
    {p : Parser} → Environment → Option Moment → Admitted p → SessionManager → SessionManager
unfolding guarded timeout_seconds update_object
run_statement e none a m = m
run_statement e (some at) a m = elim a.session [
  | none ↦ m
  | some r ↦ record m {
    objects = update_object (guarded a.request.sql at (timeout_seconds e)) r m.objects;
  }
]

unfoldable pub after_admission :
    {o : Openssl} {p : Parser}
    → Environment
    → Option Moment
    → Result Reason (Admitted p)
    → HandlerState o
    → HandlerState o
unfolding run_statement
after_admission e at (err x) st = st
after_admission e at (ok a) st = record st { sessions = run_statement e at a st.sessions }
