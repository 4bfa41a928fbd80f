-- ===== src/Timeout/Watchdog/Firing.antt =====
-- When the watchdog interrupts its connection, and that its destructor returns.
use duckdb_flock.Base.{
  ℕ, ◌+◌, ◌*◌, ◌≤◌, ◌≡◌, ◌≢◌, ◌⊎◌, inl, inr, refl, ap, ◌∙◌, Bool, Bool-cases, true, false, List, [],
  ◌∷◌, leb, ◌==◌, if◌then◌else◌, arith,
}
use duckdb_flock.Timeout.{time_after, in_clock}
use duckdb_flock.Timeout.Watchdog.{
  QueryTimeoutWatchdog, WatchdogThread, not_spawned, waiting, interrupting, finished, WatchdogEvent,
  thread_runs, destroyed, new_watchdog, run_thread, begin_destroy, can_join, watchdog_step, watch,
}

-- Whether the thread runs at or after the deadline, before the destructor does.
unfoldable pub elapses : ℕ → List WatchdogEvent → Bool
elapses deadline [] = false
elapses deadline (thread_runs now ∷ es) = if leb deadline now then true else elapses deadline es
elapses deadline (destroyed ∷ es) = false

calls_of : WatchdogThread → Bool → ℕ
calls_of finished true = 1
calls_of _ _ = 0

-- How the thread, the mark and the calls of `Interrupt` go together.
unfoldable Consistent : QueryTimeoutWatchdog → Type 0
Consistent w =
    (w.interrupts ≡ calls_of w.thread w.timed_out)
    × (w.thread ≡ waiting → w.timed_out ≡ false)
    × (w.thread ≡ not_spawned → w.timed_out ≡ false)
    × (w.thread ≡ interrupting → w.timed_out ≡ true)
    × (w.active ≡ false → w.thread ≡ not_spawned)

watchdog_step-Consistent :
    (e : WatchdogEvent) (w : QueryTimeoutWatchdog) → Consistent w → Consistent (watchdog_step e w)
unfolding Consistent watchdog_step run_thread begin_destroy calls_of
watchdog_step-Consistent e w c = ground arith

watch-Consistent :
    (es : List WatchdogEvent) (w : QueryTimeoutWatchdog) → Consistent w → Consistent (watch es w)
unfolding watch
watch-Consistent [] w c = c
watch-Consistent (e ∷ es) w c =
    watch-Consistent es (watchdog_step e w) (watchdog_step-Consistent e w c)

new_watchdog-Consistent :
    (overflowed now seconds : ℕ) → Consistent (new_watchdog overflowed now seconds)
unfolding new_watchdog Consistent calls_of
new_watchdog-Consistent overflowed now seconds = ground arith

-- No later event changes whether the watchdog has fired.
unfoldable Settled : QueryTimeoutWatchdog → Type 0
Settled w = (w.thread ≢ waiting) ⊎ (w.done ≡ true)

watchdog_step-Settled :
    (e : WatchdogEvent) (w : QueryTimeoutWatchdog)
    → Settled w
    → Settled (watchdog_step e w) × ((watchdog_step e w).timed_out ≡ w.timed_out)
unfolding watchdog_step run_thread begin_destroy Settled
watchdog_step-Settled e w c = ground arith

settled :
    (es : List WatchdogEvent) (w : QueryTimeoutWatchdog)
    → Settled w
    → (watch es w).timed_out ≡ w.timed_out
unfolding watch
settled [] w c = refl
settled (e ∷ es) w c =
    let (c', e') = watchdog_step-Settled e w c in settled es (watchdog_step e w) c' ∙ e'

unfoldable armed : ℕ → QueryTimeoutWatchdog
armed d = record {
  active = true;
  done = false;
  timed_out = false;
  deadline = d;
  thread = waiting;
  interrupts = 0;
}

overdue :
    (now d : ℕ)
    → leb d now ≡ true
    → Settled (watchdog_step (thread_runs now) (armed d))
      × ((watchdog_step (thread_runs now) (armed d)).timed_out ≡ true)
unfolding watchdog_step run_thread armed Settled
overdue now d e = ground arith

too_early : (now d : ℕ) → leb d now ≡ false → watchdog_step (thread_runs now) (armed d) ≡ armed d
unfolding watchdog_step run_thread armed
too_early now d e = ground arith

destroyed_first :
    (d : ℕ)
    → Settled (watchdog_step destroyed (armed d))
      × ((watchdog_step destroyed (armed d)).timed_out ≡ false)
unfolding watchdog_step begin_destroy armed Settled
destroyed_first d = ground arith

ends :
    (w : QueryTimeoutWatchdog) (t t' : ℕ)
    → Consistent w
    → (w.interrupts ≤ 1)
      × (w.timed_out ≡ false → w.interrupts ≡ 0)
      × (can_join (watch (destroyed ∷ thread_runs t ∷ thread_runs t' ∷ []) w) ≡ true)
unfolding watch watchdog_step begin_destroy run_thread can_join Consistent calls_of
ends w t t' c = (ground arith, ground arith, ground arith)

armed-fires : (es : List WatchdogEvent) (d : ℕ) → (watch es (armed d)).timed_out ≡ elapses d es
unfolding watch armed elapses
armed-fires [] d = refl
armed-fires (thread_runs now ∷ es) d = elim (Bool-cases (leb d now)) [
  | inl e ↦
      let (t, m) = overdue now d e in
      settled es (watchdog_step (thread_runs now) (armed d)) t ∙ m ∙ ground arith
  | inr e ↦
      let m = too_early now d e in
      ap (λ w. (watch es w).timed_out) m ∙ armed-fires es d ∙ ground arith
]
armed-fires (destroyed ∷ es) d =
    let (t, m) = destroyed_first d in settled es (watchdog_step destroyed (armed d)) t ∙ m

no_timeout :
    (overflowed now seconds : ℕ)
    → (seconds == 0) ≡ true
    → Settled (new_watchdog overflowed now seconds)
      × ((new_watchdog overflowed now seconds).timed_out ≡ false)
unfolding new_watchdog Settled
no_timeout overflowed now seconds e = ground arith

with_timeout :
    (overflowed now seconds : ℕ)
    → (seconds == 0) ≡ false
    → new_watchdog overflowed now seconds ≡ armed (time_after overflowed now seconds)
unfolding new_watchdog armed
with_timeout overflowed now seconds e = ground arith

fitting :
    (overflowed now seconds : ℕ)
    → in_clock now seconds ≡ true
    → time_after overflowed now seconds ≡ now + seconds * 1000
unfolding time_after
fitting overflowed now seconds fits = ground arith

-- With a timeout whose end fits into the clock: the watchdog fires exactly if a timeout is set and
-- its thread runs at or after the deadline before the destructor does, and no event changes that
-- afterwards.
pub watchdog_fires_on_timeout :
    (overflowed now seconds : ℕ) (es : List WatchdogEvent)
    → in_clock now seconds ≡ true
    → (watch es (new_watchdog overflowed now seconds)).timed_out
      ≡ (if seconds == 0 then false else elapses (now + seconds * 1000) es)
watchdog_fires_on_timeout overflowed now seconds es fits = elim (Bool-cases (seconds == 0)) [
  | inl e ↦
      let (t, m) = no_timeout overflowed now seconds e in
      settled es (new_watchdog overflowed now seconds) t ∙ m ∙ ground arith
  | inr e ↦
      ap (λ w. (watch es w).timed_out)
        (with_timeout overflowed now seconds e ∙ ap armed (fitting overflowed now seconds fits))
      ∙ armed-fires es (now + seconds * 1000)
      ∙ ground arith
]

-- Whatever has happened: the watchdog has called `Interrupt` at most once, and only if it says that
-- the query timed out; and once the destructor has begun, two runs of the thread end it, so that
-- the `join` returns.
pub watchdog_interrupts_once_and_joins :
    (overflowed now seconds t t' : ℕ) (es : List WatchdogEvent)
    → ((watch es (new_watchdog overflowed now seconds)).interrupts ≤ 1)
      × ((watch es (new_watchdog overflowed now seconds)).timed_out ≡ false
          → (watch es (new_watchdog overflowed now seconds)).interrupts ≡ 0)
      × (can_join (
            watch
              (destroyed ∷ thread_runs t ∷ thread_runs t' ∷ [])
              (watch es (new_watchdog overflowed now seconds)))
          ≡ true)
watchdog_interrupts_once_and_joins overflowed now seconds t t' es =
    ends (watch es (new_watchdog overflowed now seconds)) t t' (
      watch-Consistent es (new_watchdog overflowed now seconds)
        (new_watchdog-Consistent overflowed now seconds))
