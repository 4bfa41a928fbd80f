-- ===== src/Timeout/Guard.antt =====
-- One query under a guard: what the sweep and a cancellation make of it.
use duckdb_flock.Base.{
  ℕ, ◌+◌, ◌*◌, ◌^◌, ◌<◌, ◌≤◌, ◌≡◌, ◌&&◌, true, Bytes, ltb, if◌then◌else◌, arith,
}
use duckdb_flock.Session.{
  HarborSession, InterruptCause, no_cause, timeout, interrupt, sweep_session,
}
use duckdb_flock.Timeout.{arm, timed_out, cause, deadline_ms, time_after, in_clock}

-- The generations of a session, as the guards and the sweep leave them.
pub record IsFresh (s : HarborSession) : Type 0 where
  pub marked_before : s.timed_out_generation ≤ s.query_generation
  pub room : s.query_generation + 1 < 2 ^ 64

-- On a session whose mark is not ahead of its generation, and whose counter does not wrap, and with a
-- timeout whose end fits into the clock: a sweep of the session, during which no handler runs,
-- classifies a query that was started before as timed out exactly if the query has a timeout and
-- this has passed; else its cause is none.
pub sweep_classifies :
    (s : HarborSession) (sql : Bytes) (overflowed start seconds now : ℕ)
    → IsFresh s
    → in_clock start seconds ≡ true
    → (timed_out
          (arm s sql overflowed start seconds).0
          (sweep_session now (arm s sql overflowed start seconds).1)
        ≡ (ltb 0 seconds && ltb (start + seconds * 1000) now))
      × (cause
            (arm s sql overflowed start seconds).0
            (sweep_session now (arm s sql overflowed start seconds).1)
          ≡ (if ltb 0 seconds && ltb (start + seconds * 1000) now then timeout else no_cause))
unfolding timed_out cause arm sweep_session deadline_ms time_after
sweep_classifies s sql overflowed start seconds now f fits = (ground arith, ground arith)

-- On a session whose mark is not ahead of its generation, and whose counter does not wrap: right
-- after the start of a query its cause is none, whatever an earlier query left, and after a
-- cancellation it is the cause of that.
pub arm_resets :
    (s : HarborSession) (sql : Bytes) (overflowed start seconds : ℕ)
    → IsFresh s
    → (cause (arm s sql overflowed start seconds).0 (arm s sql overflowed start seconds).1
        ≡ no_cause)
      × ((c : InterruptCause)
          → cause
              (arm s sql overflowed start seconds).0
              (interrupt c (arm s sql overflowed start seconds).1)
            ≡ c)
unfolding cause arm interrupt
arm_resets s sql overflowed start seconds f = (ground arith, λ c. ground arith)
