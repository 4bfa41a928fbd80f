-- ===== src/Timeout/Sweeper/Interleaving.antt =====
-- What the generations protect against, and what they do not.
use duckdb_flock.Base.{
  ℕ, suc, ◌+◌, ◌*◌, ◌^◌, ◌<◌, ◌≤◌, ◌≡◌, refl, ap, sym, true, false, Bytes, arith,
}
use duckdb_flock.Session.{HarborSession, timeout, interrupt, is_overdue}
use duckdb_flock.Timeout.{
  QueryExecutionGuard, arm, disarm, timed_out, cause, deadline_ms, time_after, in_clock,
}
use duckdb_flock.Timeout.Sweeper.{
  Position, idle, has_generation, World, Step, read_in_flight, read_deadline, leave,
  read_generation, store_generation, call_interrupt, start_query, end_query, cancel, tick, Reach,
  here, next,
}

abbrev PendingAtMost : Position → ℕ → Type 0
PendingAtMost (has_generation g) n = g ≤ n
PendingAtMost _ n = Unit

-- Neither the mark nor the generation that the sweep carries is ahead of the session.
pub record Behind (w : World) : Type 0 where
  pub mark : w.session.timed_out_generation ≤ w.session.query_generation
  pub pending : PendingAtMost w.position w.session.query_generation

pending_mono : (p : Position) (m n : ℕ) → m ≤ n → PendingAtMost p m → PendingAtMost p n
pending_mono (has_generation g) m n h k = omega arith
pending_mono _ m n h k = tt

pending_le : (p : Position) (g n : ℕ) → p ≡ has_generation g → PendingAtMost p n → g ≤ n
pending_le p g n e h = rw e at h

Step-Behind : {w v : World} → Step w v → Behind w → Behind v
unfolding arm disarm interrupt
Step-Behind (read_in_flight w p q) b = record { mark = b.mark; pending = tt }
Step-Behind (read_deadline w p q r) b = record { mark = b.mark; pending = tt }
Step-Behind (leave w) b = record { mark = b.mark; pending = tt }
Step-Behind (read_generation w p) b = record { mark = b.mark; pending = omega arith }
Step-Behind (store_generation w g p) b = record {
  mark = pending_le w.position g _ p b.pending;
  pending = tt;
}
Step-Behind (call_interrupt w p) b = record { mark = b.mark; pending = tt }
Step-Behind (start_query w sql overflowed seconds p q) b = record {
  mark = let m = b.mark in omega arith;
  pending = pending_mono w.position _ _ (omega arith) b.pending;
}
Step-Behind (end_query w g) b = record {
  mark = let m = b.mark in ground arith;
  pending = pending_mono w.position w.session.query_generation _ (ground arith) b.pending;
}
Step-Behind (cancel w c) b = record { mark = b.mark; pending = b.pending }
Step-Behind (tick w later p) b = record { mark = b.mark; pending = b.pending }

Reach-Behind : {w v : World} → Behind w → Reach w v → Behind v
Reach-Behind b here = b
Reach-Behind b (next r st) = Step-Behind st (Reach-Behind b r)

not_hit :
    (s : HarborSession) (sql : Bytes) (overflowed clock seconds g : ℕ)
    → s.timed_out_generation ≤ s.query_generation
    → g ≤ s.query_generation
    → s.query_generation + 1 < 2 ^ 64
    → (timed_out (arm s sql overflowed clock seconds).0 (arm s sql overflowed clock seconds).1
        ≡ false)
      × (timed_out
            (arm s sql overflowed clock seconds).0
            (record (arm s sql overflowed clock seconds).1 { timed_out_generation = g })
          ≡ false)
unfolding arm timed_out
not_hit s sql overflowed clock seconds g h k room = (ground arith, ground arith)

-- From a state in which neither the mark nor the generation that the sweep carries is ahead of the
-- session, however the sweep and the handlers interleave, as long as the counter does not wrap: a
-- generation that the sweep has read before a query starts does not make that query timed out,
-- whether it is stored before or after the start.
pub generation_protects_next_query :
    (w v : World) (sql : Bytes) (overflowed seconds g : ℕ)
    → Behind w
    → Reach w v
    → v.position ≡ has_generation g
    → v.session.query_generation + 1 < 2 ^ 64
    → (timed_out
          (arm v.session sql overflowed v.clock seconds).0
          (arm v.session sql overflowed v.clock seconds).1
        ≡ false)
      × (timed_out
            (arm v.session sql overflowed v.clock seconds).0
            (record (arm v.session sql overflowed v.clock seconds).1 { timed_out_generation = g })
          ≡ false)
generation_protects_next_query w v sql overflowed seconds g b r p room =
    let c = Reach-Behind b r in
    not_hit v.session sql overflowed v.clock seconds g c.mark
      (pending_le v.position g _ p c.pending) room

-- The state after the first query has started, and after the second one has.
abbrev pub first_started : HarborSession → Bytes → ℕ → ℕ → ℕ → HarborSession
first_started s sql overflowed start seconds = (arm s sql overflowed start seconds).1

abbrev pub second_started :
    HarborSession → Bytes → ℕ → ℕ → ℕ → Bytes → ℕ → ℕ → QueryExecutionGuard × HarborSession
second_started s sql overflowed start seconds sql' now seconds' =
    arm
      (disarm (arm s sql overflowed start seconds).0 (first_started s sql overflowed start seconds))
      sql' overflowed now seconds'

abbrev pub at : HarborSession → Position → ℕ → World
at s p now = record { session = s; position = p; clock = now }

overtaken :
    (s : HarborSession) (sql sql' : Bytes) (overflowed start seconds now seconds' : ℕ)
    → s.query_in_flight ≡ false
    → s.query_generation + 2 < 2 ^ 64
    → 0 < seconds
    → start + seconds * 1000 < now
    → in_clock start seconds ≡ true
    → (g : ℕ)
    → g ≡ (second_started s sql overflowed start seconds sql' now seconds').1.query_generation
    → Reach (at s idle start) (
        at
          (record (second_started s sql overflowed start seconds sql' now seconds').1 {
            timed_out_generation = g;
            interrupts = suc s.interrupts;
          })
          idle
          now)
unfolding arm disarm deadline_ms time_after
overtaken s sql sql' overflowed start seconds now seconds' quiet room positive late fits g e =
    next
      (next
        (next
          (next
            (next
              (next
                (next
                  (next (next here (start_query _ sql overflowed seconds quiet (omega arith)))
                    (tick _ now (omega arith)))
                  (read_in_flight _ refl refl))
                (read_deadline _ refl (ground arith) (ground arith)))
              (end_query _ (arm s sql overflowed start seconds).0))
            (start_query _ sql' overflowed seconds' refl (ground arith)))
          (read_generation _ refl))
        (store_generation _ g (ap has_generation (sym e))))
      (call_interrupt _ refl)

module _ (s : HarborSession) (sql sql' : Bytes) (overflowed start seconds now seconds' : ℕ) where
  abbrev second : HarborSession
  second = (second_started s sql overflowed start seconds sql' now seconds').1

  -- The state in which the sweep leaves the second query.
  abbrev hit : HarborSession
  hit = record second {
    timed_out_generation = second.query_generation;
    interrupts = suc s.interrupts;
  }

  own_generation :
      hit.query_generation
      ≡ (second_started s sql overflowed start seconds sql' now seconds').0.my_generation
  unfolding arm
  own_generation = refl

  marked_as :
      cause (second_started s sql overflowed start seconds sql' now seconds').0 hit ≡ timeout
  unfolding arm cause timed_out
  marked_as = ground arith

  not_late : in_clock now seconds' ≡ true → is_overdue now hit ≡ false
  unfolding arm deadline_ms time_after is_overdue
  not_late fits' = ground arith

-- From any idle session whose counter does not wrap, and with timeouts whose ends fit into the clock,
-- the following can happen. The sweep finds a
-- first query, which has a timeout, overdue; before the sweep reads the generation that query ends
-- and a second one starts, which is not overdue; then the second query is the one that is marked,
-- classified as timed out, and interrupted.
pub sweep_can_hit_next_query :
    (s : HarborSession) (sql sql' : Bytes) (overflowed start seconds now seconds' : ℕ)
    → s.query_in_flight ≡ false
    → s.query_generation + 2 < 2 ^ 64
    → 0 < seconds
    → start + seconds * 1000 < now
    → in_clock start seconds ≡ true
    → in_clock now seconds' ≡ true
    → (t : HarborSession) × Reach (at s idle start) (at t idle now)
      × (t.query_generation
          ≡ (second_started s sql overflowed start seconds sql' now seconds').0.my_generation)
      × (cause (second_started s sql overflowed start seconds sql' now seconds').0 t ≡ timeout)
      × (t.interrupts ≡ s.interrupts + 1)
      × (is_overdue now t ≡ false)
sweep_can_hit_next_query s sql sql' overflowed start seconds now seconds' quiet room positive late
      fits fits' =
    (
      hit s sql sql' overflowed start seconds now seconds',
      overtaken s sql sql' overflowed start seconds now seconds' quiet room positive late fits _
          refl,
      own_generation s sql sql' overflowed start seconds now seconds',
      marked_as s sql sql' overflowed start seconds now seconds',
      omega arith,
      not_late s sql sql' overflowed start seconds now seconds' fits',
    )
