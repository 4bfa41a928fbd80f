-- ===== src/Server/Lifetime.antt =====
-- What the states of the process go through, and for whom `Wait` returns.
use duckdb_flock.Base.{
  ℕ, suc, ◌≤◌, ◌<◌, ◌≡◌, ◌≢◌, refl, sym, ap, ◌↔◌, ◌∙◌, Bool, true, false, none, some, List, [], ◌∷◌,
  Bytes, ok, if◌then◌else◌, arith, Bool-cases, inl, inr,
}
use duckdb_flock.Server.{
  HarborServerState, HarborHttpServer, listening, Environment, start, stop, start_server, wait,
  wait_done, is_running, initial_state, LifecycleCall, starts, stops, lifecycle_step, lifecycle,
  bind, register_builtin_handlers, start_listening, new_server, cors_config,
}

-- The generation that was stopped last is behind that of a running server, and level with it else.
unfoldable pub Counted : HarborServerState → Type 0
Counted st =
    if is_running st
    then (st.stopped_generation < st.generation)
    else (st.stopped_generation ≡ st.generation)

lifecycle_step-Counted :
    (c : LifecycleCall) (st : HarborServerState) → Counted st → Counted (lifecycle_step c st)
unfolding Counted lifecycle_step start stop is_running
lifecycle_step-Counted c st h = ground arith

lifecycle-Counted :
    (cs : List LifecycleCall) (st : HarborServerState) → Counted st → Counted (lifecycle cs st)
unfolding lifecycle
lifecycle-Counted [] st h = h
lifecycle-Counted (c ∷ cs) st h =
    lifecycle-Counted cs (lifecycle_step c st) (lifecycle_step-Counted c st h)

initial-Counted : Counted initial_state
unfolding Counted initial_state is_running
initial-Counted = refl

is_stop : LifecycleCall → HarborServerState → Bool
is_stop (starts _ _) st = false
is_stop (stops uri) st = (stop uri st).0

-- Whether one of the calls is a `Stop` that takes a server out, and so will return true.
unfoldable pub some_stop : List LifecycleCall → HarborServerState → Bool
unfolding is_stop
some_stop [] st = false
some_stop (c ∷ cs) st = if is_stop c st then true else some_stop cs (lifecycle_step c st)

Passed : ℕ → HarborServerState → Type 0
Passed g st = (Counted st) × (g ≤ st.stopped_generation)

lifecycle_step-Passed :
    (g : ℕ) (c : LifecycleCall) (st : HarborServerState)
    → Passed g st
    → Passed g (lifecycle_step c st)
unfolding Passed Counted lifecycle_step start stop is_running
lifecycle_step-Passed g c st h = (lifecycle_step-Counted c st h.0, ground arith)

lifecycle-Passed :
    (g : ℕ) (cs : List LifecycleCall) (st : HarborServerState)
    → Passed g st
    → Passed g (lifecycle cs st)
unfolding lifecycle
lifecycle-Passed g [] st h = h
lifecycle-Passed g (c ∷ cs) st h =
    lifecycle-Passed g cs (lifecycle_step c st) (lifecycle_step-Passed g c st h)

stopped_now :
    (c : LifecycleCall) (st : HarborServerState)
    → Counted st
    → is_stop c st ≡ true
    → st.generation ≤ (lifecycle_step c st).stopped_generation
unfolding is_stop lifecycle_step stop start
stopped_now c st h e = ground arith

still_running :
    (c : LifecycleCall) (st : HarborServerState)
    → is_running st ≡ true
    → is_stop c st ≡ false
    → (is_running (lifecycle_step c st) ≡ true) × ((lifecycle_step c st).generation ≡ st.generation)
unfolding is_stop lifecycle_step stop start is_running
still_running c st h e = ground arith

behind :
    (st : HarborServerState)
    → Counted st
    → is_running st ≡ true
    → wait_done st.generation st ≡ false
unfolding Counted wait_done
behind st h r = ground arith

passed : (g : ℕ) (st : HarborServerState) → Passed g st → wait_done g st ≡ true
unfolding Passed wait_done
passed g st p = let k = p.1 in ground arith

stop-Passed :
    (c : LifecycleCall) (st : HarborServerState)
    → Counted st
    → is_stop c st ≡ true
    → Passed st.generation (lifecycle_step c st)
unfolding Passed
stop-Passed c st h e = (lifecycle_step-Counted c st h, stopped_now c st h e)

waiting :
    (st : HarborServerState) (g : ℕ) → wait st ≡ ok g → (is_running st ≡ true) × (g ≡ st.generation)
unfolding wait is_running
waiting st g e = ground arith

done-some_stop :
    (cs : List LifecycleCall) (st : HarborServerState)
    → Counted st
    → is_running st ≡ true
    → wait_done st.generation (lifecycle cs st) ≡ some_stop cs st
unfolding lifecycle some_stop
done-some_stop [] st h r = behind st h r
done-some_stop (c ∷ cs) st h r = elim (Bool-cases (is_stop c st)) [
  | inl e ↦
      let p = lifecycle-Passed st.generation cs (lifecycle_step c st) (stop-Passed c st h e) in
      passed st.generation _ p ∙ ground arith
  | inr e ↦
      let (r', g) = still_running c st r e in
      ap (λ n. wait_done n (lifecycle cs (lifecycle_step c st))) (sym g)
      ∙ done-some_stop cs (lifecycle_step c st) (lifecycle_step-Counted c st h) r'
      ∙ ground arith
]

-- A `Wait` that begins while a server runs waits for exactly that server, whatever starts and stops
-- came before and come later: its condition holds exactly if a later `Stop` has taken a server out.
-- That is the part of `Stop` under the lock, which settles that it returns true; `Close`, which it
-- runs before it returns, may still be waiting for requests by then.
pub wait_returns_after_stop :
    (before later : List LifecycleCall) (g : ℕ)
    → wait (lifecycle before initial_state) ≡ ok g
    → wait_done g (lifecycle later (lifecycle before initial_state))
      ≡ some_stop later (lifecycle before initial_state)
wait_returns_after_stop before later g e =
    let st = lifecycle before initial_state in
    let (r, n) = waiting st g e in
    ap (λ m. wait_done m (lifecycle later st)) n
    ∙ done-some_stop later st (lifecycle-Counted before initial_state initial-Counted) r

abbrev started : Environment → Bytes → HarborHttpServer
started h uri = record {
  phase = listening;
  listen_uri = uri;
  has_server = true;
  accepting = true;
  thread_joinable = true;
  has_handlers = true;
  handlers_stopped = false;
  active_requests = 0;
  cors_allowed_origins = (cors_config h).1;
}

-- `Start` succeeds exactly if no server runs, the library's server is valid and binds, the setting of
-- the origins is not refused, and neither the threads nor the handlers throw; then a server with its handlers and the origins listens on
-- the URI and the generation grows; else nothing changes.
pub start_all_or_nothing :
    (h : Environment) (uri : Bytes) (st : HarborServerState)
    → ((start h uri st).0 ≡ none ↔ (
        (is_running st ≡ false)
        × (h.is_valid ≡ true)
        × (h.bind_to_port uri ≡ true)
        × ((cors_config h).0 ≡ ok tt)
        × (h.sweeper_starts ≡ true)
        × (h.handlers_construct ≡ true)
        × (h.listener_starts ≡ true)))
      × ((start h uri st).0 ≡ none
          → (s : HarborHttpServer) × ((start h uri st).1.server ≡ some s)
            × (s.phase ≡ listening)
            × (s.listen_uri ≡ uri)
            × (s.has_handlers ≡ true)
            × (s.cors_allowed_origins ≡ (cors_config h).1)
            × ((start h uri st).1.generation ≡ suc st.generation))
      × ((start h uri st).0 ≢ none → (start h uri st).1 ≡ st)
unfolding start start_server bind register_builtin_handlers start_listening new_server is_running
start_all_or_nothing h uri st = (
  ground arith,
  λ e. (started h uri, ground arith, refl, refl, refl, refl, ground arith),
  ground arith,
)
