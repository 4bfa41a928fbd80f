-- ===== src/Timeout/Watchdog.antt =====
-- src/harbor_query_timeout.cpp: `QueryTimeoutWatchdog`, the thread that guards a query run outside
-- a session. The mutex makes each wake-up of the thread one step.
pub mod Firing
use duckdb_flock.Base.{
  ℕ, zero, suc, ◌+◌, ◌*◌, ◌<◌, ◌≤◌, ◌≡◌, ◌≢◌, ◌⊎◌, inl, inr, refl, Bool, true, false, not, ◌&&◌,
  List, [], ◌∷◌, ltb, leb, ◌==◌, if◌then◌else◌, arith,
}
use duckdb_flock.Timeout.{time_after}

-- Where the thread stands: not spawned, in `wait_until`, between the mark and the end, and ended.
pub data WatchdogThread : Type 0 where
  not_spawned waiting interrupting finished : WatchdogThread

pub record QueryTimeoutWatchdog : Type 0 where
  pub active : Bool
  pub done : Bool
  pub timed_out : Bool
  pub deadline : ℕ
  pub thread : WatchdogThread
  pub interrupts : ℕ

-- The constructor; 0 seconds give a watchdog that does nothing.
unfoldable pub new_watchdog : ℕ → ℕ → ℕ → QueryTimeoutWatchdog
unfolding time_after
new_watchdog overflowed now timeout_seconds = elim (timeout_seconds == 0) [
  | true ↦ record {
    active = false;
    done = false;
    timed_out = false;
    deadline = 0;
    thread = not_spawned;
    interrupts = 0;
  }
  | false ↦ record {
    active = true;
    done = false;
    timed_out = false;
    deadline = time_after overflowed now timeout_seconds;
    thread = waiting;
    interrupts = 0;
  }
]

-- The thread runs at a time: it wakes from the wait, or calls `Interrupt` after the mark.
unfoldable pub run_thread : ℕ → WatchdogThread → QueryTimeoutWatchdog → QueryTimeoutWatchdog
run_thread now waiting w =
    if w.done
    then record w { thread = finished }
    else (if leb w.deadline now then record w { timed_out = true; thread = interrupting } else w)
run_thread now interrupting w = record w { interrupts = suc w.interrupts; thread = finished }
run_thread now _ w = w

-- The destructor up to its `join`.
unfoldable pub begin_destroy : QueryTimeoutWatchdog → QueryTimeoutWatchdog
begin_destroy w = if w.active then record w { done = true } else w

-- The `join` returns when the thread has ended.
unfoldable pub can_join : QueryTimeoutWatchdog → Bool
can_join w = elim w.thread [ not_spawned ↦ true | finished ↦ true | _ ↦ false ]

pub data WatchdogEvent : Type 0 where
  thread_runs : ℕ → WatchdogEvent
  destroyed : WatchdogEvent

unfoldable pub watchdog_step : WatchdogEvent → QueryTimeoutWatchdog → QueryTimeoutWatchdog
unfolding run_thread begin_destroy
watchdog_step (thread_runs now) w = run_thread now w.thread w
watchdog_step destroyed w = begin_destroy w

unfoldable pub watch : List WatchdogEvent → QueryTimeoutWatchdog → QueryTimeoutWatchdog
watch [] w = w
watch (e ∷ es) w = watch es (watchdog_step e w)
