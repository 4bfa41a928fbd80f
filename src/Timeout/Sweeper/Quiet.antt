-- ===== src/Timeout/Sweeper/Quiet.antt =====
-- The sweep against a guard that is gone, and a sweep that nothing interrupts.
use duckdb_flock.Base.{ℕ, ◌≡◌, Bool, true, false, arith}
use duckdb_flock.Session.{HarborSession, interrupt}
use duckdb_flock.Timeout.{QueryExecutionGuard, disarm}
use duckdb_flock.Timeout.Sweeper.{
  Position, idle, saw_in_flight, saw_overdue, marked, has_generation, World, Step, read_in_flight,
  read_deadline, leave, read_generation, store_generation, call_interrupt, start_query, end_query,
  cancel, tick, Reach, here, next,
}
use duckdb_flock.Timeout.Sweeper.Interleaving.{at}

is_start : {w v : World} → Step w v → Bool
is_start (start_query w sql overflowed seconds p q) = true
is_start _ = false

-- No query starts on the way.
unfoldable pub NoStart : {w v : World} → Reach w v → Type 0
unfolding is_start
NoStart here = Unit
NoStart (next r st) = NoStart r × (is_start st ≡ false)

-- Before its test of the deadline.
abbrev pub IsEarly : Position → Type 0
IsEarly idle = Unit
IsEarly saw_in_flight = Unit
IsEarly _ = ⊥

-- No query is in flight, none has a deadline, and the mark is a given one.
pub record IsQuiet (mark : ℕ) (w : World) : Type 0 where
  pub no_query : w.session.query_in_flight ≡ false
  pub no_deadline : w.session.query_deadline_ms ≡ 0
  pub same_mark : w.session.timed_out_generation ≡ mark
  pub early : IsEarly w.position

not_early : (p q : Position) → p ≡ q → (IsEarly q → ⊥) → IsEarly p → ⊥
not_early p q e h k = h (rw e at k)

Step-IsQuiet :
    {w v : World} (mark : ℕ) (st : Step w v) → is_start st ≡ false → IsQuiet mark w → IsQuiet mark v
unfolding disarm interrupt is_start
Step-IsQuiet mark (read_in_flight w p q) n b = record {
  no_query = b.no_query;
  no_deadline = b.no_deadline;
  same_mark = b.same_mark;
  early = tt;
}
Step-IsQuiet mark (read_deadline w p q r) n b = absurd (q b.no_deadline)
Step-IsQuiet mark (leave w) n b = record {
  no_query = b.no_query;
  no_deadline = b.no_deadline;
  same_mark = b.same_mark;
  early = tt;
}
Step-IsQuiet mark (read_generation w p) n b =
    absurd (not_early w.position saw_overdue p (λ k. k) b.early)
Step-IsQuiet mark (store_generation w g p) n b =
    absurd (not_early w.position (has_generation g) p (λ k. k) b.early)
Step-IsQuiet mark (call_interrupt w p) n b = absurd (not_early w.position marked p (λ k. k) b.early)
Step-IsQuiet mark (start_query w sql overflowed seconds p q) n b = cc
Step-IsQuiet mark (end_query w g) n b =
    let c = b.no_query in
    let d = b.no_deadline in
    let e = b.same_mark in
    record {
      no_query = ground arith;
      no_deadline = ground arith;
      same_mark = ground arith;
      early = b.early;
    }
Step-IsQuiet mark (cancel w c) n b = record {
  no_query = b.no_query;
  no_deadline = b.no_deadline;
  same_mark = b.same_mark;
  early = b.early;
}
Step-IsQuiet mark (tick w later p) n b = record {
  no_query = b.no_query;
  no_deadline = b.no_deadline;
  same_mark = b.same_mark;
  early = b.early;
}

Reach-IsQuiet :
    {w v : World} (mark : ℕ) (r : Reach w v) → NoStart r → IsQuiet mark w → IsQuiet mark v
unfolding NoStart
Reach-IsQuiet mark here n b = b
Reach-IsQuiet mark (next r st) n b = Step-IsQuiet mark st n.1 (Reach-IsQuiet mark r n.0 b)

disarm-IsQuiet :
    (s : HarborSession) (g : QueryExecutionGuard) (p : Position) (now : ℕ)
    → g.attached ≡ true
    → IsEarly p
    → IsQuiet s.timed_out_generation (at (disarm g s) p now)
unfolding disarm
disarm-IsQuiet s g p now attached early = record {
  no_query = ground arith;
  no_deadline = ground arith;
  same_mark = ground arith;
  early = early;
}

-- If a guard is destroyed that was not moved from, while the sweep of its session has not begun or
-- has only read that a query is in flight, then until the next query starts, however the sweep, the
-- clock, cancellations and the ends of guards interleave, the sweep marks nothing and does not come
-- to interrupt, and the session shows no query in flight and no deadline.
pub sweep_after_disarm :
    (s : HarborSession) (g : QueryExecutionGuard) (p : Position) (now : ℕ) (v : World)
    → g.attached ≡ true
    → IsEarly p
    → (r : Reach (at (disarm g s) p now) v) → NoStart r
    → IsQuiet s.timed_out_generation v
sweep_after_disarm s g p now v attached early r n =
    Reach-IsQuiet s.timed_out_generation r n (disarm-IsQuiet s g p now attached early)
