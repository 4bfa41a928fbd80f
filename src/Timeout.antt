-- ===== src/Timeout.antt =====
-- src/harbor_query_timeout.cpp: the setting, `QueryExecutionGuard` and `QueryTimeoutWatchdog`.
pub mod Guard
pub mod Sweeper
pub mod Watchdog
use duckdb_flock.Base.{
  ℕ, zero, suc, ◌+◌, ◌*◌, ◌%◌, ◌^◌, Bool, true, false, not, ◌&&◌, Option, none, some, Bytes, codes,
  ltb, leb, ◌==◌, if◌then◌else◌,
}
use duckdb_flock.Duckdb.{Database, ubigint}
use duckdb_flock.Session.{HarborSession, InterruptCause, no_cause, timeout}

-- Only a `UBIGINT` counts.
unfoldable pub read_query_timeout_seconds : Database → ℕ
read_query_timeout_seconds db = elim (db.try_get_current_setting (codes "harbor_query_timeout_s")) [
  | some (ubigint n) ↦ n
  | _ ↦ 0
]

-- Whether a time so many seconds after a number of milliseconds fits into the clock, which counts
-- nanoseconds in a signed number of 64 bits.
unfoldable pub in_clock : ℕ → ℕ → Bool
in_clock now seconds = leb ((now + seconds * 1000 + 1) * 10 ^ 6) (2 ^ 63)

-- `now + std::chrono::seconds(static_cast<int64_t>(seconds))`, in milliseconds. C++ leaves a sum that
-- does not fit undefined: it is the first argument, of which nothing is known.
unfoldable pub time_after : ℕ → ℕ → ℕ → ℕ
unfolding in_clock
time_after overflowed now seconds =
    if in_clock now seconds then now + seconds * 1000 else overflowed

-- The deadline in milliseconds, 0 for none.
unfoldable pub deadline_ms : ℕ → ℕ → ℕ → ℕ
unfolding time_after
deadline_ms overflowed now timeout_seconds =
    if ltb 0 timeout_seconds then time_after overflowed now timeout_seconds else 0

unfoldable pub resolve_query_deadline_ms : Database → ℕ → ℕ → ℕ
unfolding read_query_timeout_seconds time_after
resolve_query_deadline_ms db overflowed now =
    let seconds = read_query_timeout_seconds db in
    if seconds == 0 then 0 else time_after overflowed now seconds

-- A guard; `attached` is false once it was moved from.
pub record QueryExecutionGuard : Type 0 where
  pub attached : Bool
  pub my_generation : ℕ

-- The constructor: generation, query text, cause, deadline and flag, in this order.
unfoldable pub arm : HarborSession → Bytes → ℕ → ℕ → ℕ → QueryExecutionGuard × HarborSession
unfolding deadline_ms
arm s sql overflowed now timeout_seconds =
    let generation = (s.query_generation + 1) % 2 ^ 64 in
    (
      record { attached = true; my_generation = generation },
      record s {
        query_generation = generation;
        last_query = sql;
        interrupt_cause = no_cause;
        query_deadline_ms = deadline_ms overflowed now timeout_seconds;
        query_in_flight = true;
      },
    )

-- The destructor.
unfoldable pub disarm : QueryExecutionGuard → HarborSession → HarborSession
disarm g s = if g.attached then record s { query_deadline_ms = 0; query_in_flight = false } else s

-- The move constructor: the new guard, and the one moved from.
unfoldable pub move_guard : QueryExecutionGuard → QueryExecutionGuard × QueryExecutionGuard
move_guard other = (other, record other { attached = false })

-- The move assignment between guards of one session: the guard, the one moved from, the session.
unfoldable pub move_assign :
    QueryExecutionGuard
    → QueryExecutionGuard
    → HarborSession
    → QueryExecutionGuard × QueryExecutionGuard × HarborSession
unfolding disarm
move_assign g other s = (other, record other { attached = false }, disarm g s)

unfoldable pub timed_out : QueryExecutionGuard → HarborSession → Bool
timed_out g s = if g.attached then s.timed_out_generation == g.my_generation else false

unfoldable pub cause : QueryExecutionGuard → HarborSession → InterruptCause
unfolding timed_out
cause g s = if g.attached then (if timed_out g s then timeout else s.interrupt_cause) else no_cause
