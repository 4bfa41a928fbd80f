-- ===== src/Timeout/Sweeper.antt =====
-- src/harbor_session.cpp: one session in `TimeoutSweepOnce`, read by read and store by store, while
-- queries start, end and are cancelled on the session. A guard's constructor and destructor are one
-- step each here.
pub mod Interleaving
pub mod Quiet
use duckdb_flock.Base.{ℕ, zero, suc, ◌+◌, ◌^◌, ◌<◌, ◌≤◌, ◌≡◌, ◌≢◌, Bool, true, false, Bytes}
use duckdb_flock.Session.{HarborSession, InterruptCause, interrupt}
use duckdb_flock.Timeout.{QueryExecutionGuard, arm, disarm}

-- Where the sweep stands: before its first read, after the test of `query_in_flight`, after the
-- tests of the deadline, with the generation it has read, and before its call of `Interrupt`.
pub data Position : Type 0 where
  idle saw_in_flight saw_overdue marked : Position
  has_generation : ℕ → Position

pub record World : Type 0 where
  pub session : HarborSession
  pub position : Position
  pub clock : ℕ

pub data Step : World → World → Type 0 where
  -- The sweep. A test that fails ends it for this session.
  read_in_flight :
      (w : World)
      → w.position ≡ idle
      → w.session.query_in_flight ≡ true
      → Step w (record w { position = saw_in_flight })
  read_deadline :
      (w : World)
      → w.position ≡ saw_in_flight
      → w.session.query_deadline_ms ≢ 0
      → w.session.query_deadline_ms < w.clock
      → Step w (record w { position = saw_overdue })
  leave : (w : World) → Step w (record w { position = idle })
  read_generation :
      (w : World)
      → w.position ≡ saw_overdue
      → Step w (record w { position = has_generation w.session.query_generation })
  store_generation :
      (w : World) (g : ℕ)
      → w.position ≡ has_generation g
      → Step w
          (record w { session = record w.session { timed_out_generation = g }; position = marked })
  call_interrupt :
      (w : World)
      → w.position ≡ marked
      → Step w (record w {
        session = record w.session { interrupts = suc w.session.interrupts };
        position = idle;
      })
  -- The handlers and the clock. The counter of generations does not wrap.
  start_query :
      (w : World) (sql : Bytes) (overflowed seconds : ℕ)
      → w.session.query_in_flight ≡ false
      → w.session.query_generation + 1 < 2 ^ 64
      → Step w (record w { session = (arm w.session sql overflowed w.clock seconds).1 })
  end_query :
      (w : World) (g : QueryExecutionGuard) → Step w (record w { session = disarm g w.session })
  cancel : (w : World) (c : InterruptCause) → Step w (record w { session = interrupt c w.session })
  tick : (w : World) (later : ℕ) → w.clock ≤ later → Step w (record w { clock = later })

pub data Reach (w : World) : World → Type 0 where
  here : Reach w w
  next : {u v : World} → Reach w u → Step u v → Reach w v
