-- ===== src/Examples/Timeouts.antt =====
-- Queries with a timeout, on a session and outside one.
use duckdb_flock.Base.{
  ◌+◌, ◌*◌, ◌≤◌, ◌≡◌, refl, true, false, ◌&&◌, List, [], ◌∷◌, codes, arith, ltb, ◌==◌,
  if◌then◌else◌,
}
use duckdb_flock.Session.{
  HarborSession, InterruptCause, no_cause, timeout, interrupt, new_session, sweep_session,
  is_overdue,
}
use duckdb_flock.Timeout.{arm, disarm, timed_out, cause, in_clock}
use duckdb_flock.Timeout.Guard.{IsFresh, sweep_classifies, arm_resets}
use duckdb_flock.Timeout.Sweeper.{
  World, idle, has_generation, Reach, here, next, read_in_flight, read_deadline, read_generation,
  saw_in_flight, tick,
}
use duckdb_flock.Timeout.Sweeper.Quiet.{IsQuiet, NoStart, sweep_after_disarm}
use duckdb_flock.Timeout.Sweeper.Interleaving.{
  generation_protects_next_query, sweep_can_hit_next_query, second_started, at,
}
use duckdb_flock.Timeout.Watchdog.{
  new_watchdog, watch, can_join, WatchdogEvent, thread_runs, destroyed,
}
use duckdb_flock.Timeout.Watchdog.Firing.{
  elapses, watchdog_fires_on_timeout, watchdog_interrupts_once_and_joins,
}
use duckdb_flock.Examples.Inputs.{alice}

abbrev fresh : HarborSession
fresh = new_session (codes "s1") alice 5

fresh-IsFresh : IsFresh fresh
unfolding new_session
fresh-IsFresh = record { marked_before = omega arith; room = omega arith }

fits : in_clock 10 2 ≡ true
unfolding in_clock
fits = ground arith

fits_later : in_clock 2011 5 ≡ true
unfolding in_clock
fits_later = ground arith

sweep_classifies_example :
    (timed_out
        (arm fresh (codes "q") 0 10 2).0
        (sweep_session 2011 (arm fresh (codes "q") 0 10 2).1)
      ≡ (ltb 0 2 && ltb (10 + 2 * 1000) 2011))
    × (cause (arm fresh (codes "q") 0 10 2).0 (sweep_session 2011 (arm fresh (codes "q") 0 10 2).1)
        ≡ (if ltb 0 2 && ltb (10 + 2 * 1000) 2011 then timeout else no_cause))
sweep_classifies_example = sweep_classifies fresh (codes "q") 0 10 2 2011 fresh-IsFresh fits

arm_resets_example :
    (cause (arm fresh (codes "q") 0 10 2).0 (arm fresh (codes "q") 0 10 2).1 ≡ no_cause)
    × ((c : InterruptCause)
        → cause (arm fresh (codes "q") 0 10 2).0 (interrupt c (arm fresh (codes "q") 0 10 2).1) ≡ c)
arm_resets_example = arm_resets fresh (codes "q") 0 10 2 fresh-IsFresh

abbrev running : HarborSession
running = record fresh { query_in_flight = true; query_generation = 1; query_deadline_ms = 100 }

swept : Reach (at running idle 101) (at running (has_generation 1) 101)
unfolding new_session
swept =
    next
      (next (next here (read_in_flight _ refl refl))
        (read_deadline _ refl (ground arith) (omega arith)))
      (read_generation _ refl)

generation_protects_next_query_example :
    (timed_out (arm running (codes "q") 0 101 2).0 (arm running (codes "q") 0 101 2).1 ≡ false)
    × (timed_out
          (arm running (codes "q") 0 101 2).0
          (record (arm running (codes "q") 0 101 2).1 { timed_out_generation = 1 })
        ≡ false)
unfolding new_session
generation_protects_next_query_example =
    generation_protects_next_query (at running idle 101) (at running (has_generation 1) 101)
      (codes "q") 0 2 1 (record { mark = omega arith; pending = tt }) swept refl (omega arith)

abbrev armed : HarborSession
armed = (arm fresh (codes "q") 0 10 2).1

attached : (arm fresh (codes "q") 0 10 2).0.attached ≡ true
unfolding arm
attached = refl

abbrev disarmed : World
disarmed = at (disarm (arm fresh (codes "q") 0 10 2).0 armed) saw_in_flight 2000

abbrev ticks : Reach disarmed (record disarmed { clock = 5000 })
ticks = next here (tick _ 5000 (omega arith))

no_start : NoStart ticks
unfolding NoStart
no_start = (tt, refl)

sweep_after_disarm_example : IsQuiet armed.timed_out_generation (record disarmed { clock = 5000 })
sweep_after_disarm_example =
    sweep_after_disarm armed (arm fresh (codes "q") 0 10 2).0 saw_in_flight 2000
      (record disarmed { clock = 5000 }) attached tt ticks no_start

sweep_can_hit_next_query_example :
    (t : HarborSession) × Reach (at fresh idle 10) (at t idle 2011)
    × (t.query_generation
        ≡ (second_started fresh (codes "q") 0 10 2 (codes "r") 2011 5).0.my_generation)
    × (cause (second_started fresh (codes "q") 0 10 2 (codes "r") 2011 5).0 t ≡ timeout)
    × (t.interrupts ≡ fresh.interrupts + 1)
    × (is_overdue 2011 t ≡ false)
unfolding new_session
sweep_can_hit_next_query_example =
    sweep_can_hit_next_query fresh (codes "q") (codes "r") 0 10 2 2011 5 refl (omega arith)
      (omega arith) (omega arith) fits fits_later

abbrev events : List WatchdogEvent
events = thread_runs 50 ∷ thread_runs 3000 ∷ destroyed ∷ []

watchdog_fires_on_timeout_example :
    (watch events (new_watchdog 0 10 2)).timed_out
    ≡ (if 2 == 0 then false else elapses (10 + 2 * 1000) events)
watchdog_fires_on_timeout_example = watchdog_fires_on_timeout 0 10 2 events fits

watchdog_interrupts_once_and_joins_example :
    ((watch events (new_watchdog 0 10 2)).interrupts ≤ 1)
    × ((watch events (new_watchdog 0 10 2)).timed_out ≡ false
        → (watch events (new_watchdog 0 10 2)).interrupts ≡ 0)
    × (can_join (
          watch
            (destroyed ∷ thread_runs 4000 ∷ thread_runs 4001 ∷ [])
            (watch events (new_watchdog 0 10 2)))
        ≡ true)
watchdog_interrupts_once_and_joins_example =
    watchdog_interrupts_once_and_joins 0 10 2 4000 4001 events
