-- ===== src/Session/WellFormed.antt =====
-- The map and the sessions that it points to agree after every call.
use duckdb_flock.Base.{
  ℕ, zero, suc, ◌≡◌, ◌⊎◌, refl, ◌∙◌, Bool, true, false, not, Option, none, some, List, [], ◌∷◌,
  ◌++◌, Bytes, is_empty, length, get_elem?, All, Result, ◌==◌, leb, ok, Option-cases, Bool-cases,
  inl, inr, if◌then◌else◌, arith, ◌>>◌, throw_if,
}
use duckdb_flock.Crypto.Hex.{is_valid_principal_hex}
use duckdb_flock.Session.Assoc.{
  find_key, erase_key, Fresh, Distinct, find_key-Fresh, Distinct-erase_key, All-erase_key,
}
use duckdb_flock.Session.{
  HarborSession, InterruptCause, read_max_sessions, SessionManager, SessionError, id_collision,
  database_closed, owner_malformed, session_limit, new_manager, new_session, add_session,
  create_new_connection, create_owned_session, disconnect_connection, is_owned_by,
  destroy_owned_session, destroy_loop, destroy_all_owned_by, update_object, interrupt,
  interrupt_session, sweep_session, sweep_loop, timeout_sweep_once, Call, connects, creates,
  disconnects, destroys, destroys_all, interrupts_one, sweeps, kept, step, run, is_some,
}

-- An entry points to a session of its id.
abbrev pub Points : List HarborSession → Bytes × ℕ → Type 0
Points objects e = (s : HarborSession) × (get_elem? objects e.1 ≡ some s) × (s.session_id ≡ e.0)

-- No id stands in the map twice, and every entry points to a session of its id.
pub record IsWellFormed (m : SessionManager) : Type 0 where
  pub distinct : Distinct m.active
  pub points : All (Points m.objects) m.active

pub get_elem?-append :
    (xs : List HarborSession) (x s : HarborSession) (r : ℕ)
    → get_elem? xs r ≡ some s
    → get_elem? (xs ++ x ∷ []) r ≡ some s
get_elem?-append [] x s r h = cc
get_elem?-append (y ∷ xs) x s zero h = h
get_elem?-append (y ∷ xs) x s (suc r) h = get_elem?-append xs x s r h

pub get_elem?-length :
    (xs : List HarborSession) (x : HarborSession) → get_elem? (xs ++ x ∷ []) (length xs) ≡ some x
get_elem?-length [] x = refl
get_elem?-length (y ∷ xs) x = get_elem?-length xs x

Points-append :
    (objects : List HarborSession) (x : HarborSession) (entries : List (Bytes × ℕ))
    → All (Points objects) entries
    → All (Points (objects ++ x ∷ [])) entries
Points-append objects x [] h = tt
Points-append objects x (e ∷ entries) h =
    let (s, at, id) = h.0 in
    ((s, get_elem?-append objects x s e.1 at, id), Points-append objects x entries h.1)

add_session-IsWellFormed :
    (m : SessionManager) (s : HarborSession)
    → find_key s.session_id m.active ≡ none
    → IsWellFormed m
    → IsWellFormed (add_session m s)
unfolding add_session
add_session-IsWellFormed m s fresh w = record {
  distinct = (find_key-Fresh s.session_id m.active fresh, w.distinct);
  points = ((s, get_elem?-length m.objects s, refl), Points-append m.objects s m.active w.points);
}

erase-IsWellFormed :
    (m : SessionManager) (id : Bytes)
    → IsWellFormed m
    → IsWellFormed (record m { active = erase_key id m.active })
erase-IsWellFormed m id w = record {
  distinct = Distinct-erase_key id m.active w.distinct;
  points = All-erase_key (Points m.objects) id m.active w.points;
}

abbrev pub map_option : {A B : Type 0} → (A → B) → Option A → Option B
map_option f none = none
map_option f (some a) = some (f a)

update-cons :
    (f : HarborSession → HarborSession) (r : ℕ) (x : HarborSession) (objects : List HarborSession)
    → update_object f (suc r) (x ∷ objects) ≡ x ∷ update_object f r objects
unfolding update_object
update-cons f r x objects = ground arith

-- A change through a pointer is seen through that pointer and no other.
pub get_elem?-update :
    (f : HarborSession → HarborSession) (objects : List HarborSession) (r j : ℕ)
    → get_elem? (update_object f r objects) j
      ≡ (if r == j then map_option f (get_elem? objects j) else get_elem? objects j)
get_elem?-update f [] r j = unfold update_object in ground arith
get_elem?-update f (x ∷ objects) zero zero = unfold update_object in refl
get_elem?-update f (x ∷ objects) zero (suc j) = unfold update_object in ground arith
get_elem?-update f (x ∷ objects) (suc r) zero = rw update-cons (ground arith)
get_elem?-update f (x ∷ objects) (suc r) (suc j) =
    rw update-cons (ground (arith, get_elem?-update f objects r j))

-- A change of sessions that keeps their ids.
abbrev KeepsId : (HarborSession → HarborSession) → Type 0
KeepsId f = (s : HarborSession) → (f s).session_id ≡ s.session_id

Points-update :
    (f : HarborSession → HarborSession) (r : ℕ) (objects : List HarborSession)
    (entries : List (Bytes × ℕ))
    → KeepsId f
    → All (Points objects) entries
    → All (Points (update_object f r objects)) entries
Points-update f r objects [] keeps h = tt
Points-update f r objects (e ∷ entries) keeps h =
    (moved (Bool-cases (r == e.1)) h.0, Points-update f r objects entries keeps h.1)
  where
    moved :
        ((r == e.1) ≡ true) ⊎ ((r == e.1) ≡ false)
        → Points objects e
        → Points (update_object f r objects) e
    moved (inl same) (s, at, id) =
        (f s, ground (arith, get_elem?-update f objects r e.1), keeps s ∙ id)
    moved (inr other) (s, at, id) = (s, ground (arith, get_elem?-update f objects r e.1), id)

sweep_session-KeepsId : (now : ℕ) → KeepsId (sweep_session now)
unfolding sweep_session
sweep_session-KeepsId now s = ground arith

Points-sweep :
    (now : ℕ) (todo : List (Bytes × ℕ)) (objects : List HarborSession) (entries : List (Bytes × ℕ))
    → All (Points objects) entries
    → All (Points (sweep_loop now todo objects)) entries
unfolding sweep_loop
Points-sweep now [] objects entries h = h
Points-sweep now ((k, r) ∷ todo) objects entries h =
    Points-sweep now todo _ entries
      (Points-update (sweep_session now) r objects entries (sweep_session-KeepsId now) h)

pub Fresh-destroy :
    (m : SessionManager) (p key : Bytes) (entries : List (Bytes × ℕ))
    → Fresh key entries
    → Fresh key (destroy_loop m p entries).0
unfolding destroy_loop
Fresh-destroy m p key [] h = tt
Fresh-destroy m p key ((k, r) ∷ entries) h = elim (Bool-cases (is_owned_by m p r)) [
  | inl e ↦ rw e (Fresh-destroy m p key entries h.1)
  | inr e ↦ rw e (h.0, Fresh-destroy m p key entries h.1)
]

Distinct-destroy :
    (m : SessionManager) (p : Bytes) (entries : List (Bytes × ℕ))
    → Distinct entries
    → Distinct (destroy_loop m p entries).0
unfolding destroy_loop
Distinct-destroy m p [] h = tt
Distinct-destroy m p ((k, r) ∷ entries) h = elim (Bool-cases (is_owned_by m p r)) [
  | inl e ↦ rw e (Distinct-destroy m p entries h.1)
  | inr e ↦ rw e (Fresh-destroy m p k entries h.0, Distinct-destroy m p entries h.1)
]

All-destroy :
    (P : Bytes × ℕ → Type 0) (m : SessionManager) (p : Bytes) (entries : List (Bytes × ℕ))
    → All P entries
    → All P (destroy_loop m p entries).0
unfolding destroy_loop
All-destroy P m p [] h = tt
All-destroy P m p ((k, r) ∷ entries) h = elim (Bool-cases (is_owned_by m p r)) [
  | inl e ↦ rw e (All-destroy P m p entries h.1)
  | inr e ↦ rw e (h.0, All-destroy P m p entries h.1)
]

-- Each call keeps the invariant, whether it throws or returns.
guarded :
    (m : SessionManager) (b : Bool) (e : SessionError) (rest : Result SessionError SessionManager)
    → IsWellFormed m
    → IsWellFormed (kept m rest)
    → IsWellFormed (kept m (throw_if b e >> rest))
guarded m true e rest w h = w
guarded m false e rest w h = h

absent_guarded :
    (m : SessionManager) (id : Bytes) (e : SessionError) (rest : Result SessionError SessionManager)
    → IsWellFormed m
    → (find_key id m.active ≡ none → IsWellFormed (kept m rest))
    → IsWellFormed (kept m (throw_if (is_some (find_key id m.active)) e >> rest))
absent_guarded m id e rest w h = elim (Option-cases (find_key id m.active)) [
  | inl f ↦ rw f (h f)
  | inr (r, f) ↦ rw f w
]

new_session-id : (id owner : Bytes) (now : ℕ) → (new_session id owner now).session_id ≡ id
unfolding new_session
new_session-id id owner now = refl

added :
    (m : SessionManager) (id owner : Bytes) (now : ℕ)
    → IsWellFormed m
    → find_key id m.active ≡ none
    → IsWellFormed (add_session m (new_session id owner now))
added m id owner now w f =
    add_session-IsWellFormed m (new_session id owner now) (rw new_session-id f) w

disconnect-IsWellFormed :
    (m : SessionManager) (id : Bytes) → IsWellFormed m → IsWellFormed (disconnect_connection m id).1
unfolding disconnect_connection
disconnect-IsWellFormed m id w = elim (Option-cases (find_key id m.active)) [
  | inl e ↦ rw (disconnect_connection, e) w
  | inr (r, e) ↦ rw (disconnect_connection, e) (erase-IsWellFormed m id w)
]

destroy-IsWellFormed :
    (m : SessionManager) (id p : Bytes)
    → IsWellFormed m
    → IsWellFormed (destroy_owned_session m id p).1
unfolding destroy_owned_session
destroy-IsWellFormed m id p w = elim (Option-cases (find_key id m.active)) [
  | inl e ↦ rw (destroy_owned_session, e) w
  | inr (r, e) ↦ elim (Bool-cases (is_owned_by m p r)) [
    | inl f ↦ rw (destroy_owned_session, e) (rw f (erase-IsWellFormed m id w))
    | inr f ↦ rw (destroy_owned_session, e) (rw f w)
  ]
]

destroy_all-IsWellFormed :
    (m : SessionManager) (p : Bytes) → IsWellFormed m → IsWellFormed (destroy_all_owned_by m p).1
unfolding destroy_all_owned_by
destroy_all-IsWellFormed m p w = elim (Bool-cases (is_empty p)) [
  | inl e ↦ rw e w
  | inr e ↦ rw e (record {
    distinct = Distinct-destroy m p m.active w.distinct;
    points = All-destroy (Points m.objects) m p m.active w.points;
  })
]

pub update-IsWellFormed :
    (m : SessionManager) (f : HarborSession → HarborSession) (r : ℕ)
    → ((s : HarborSession) → (f s).session_id ≡ s.session_id)
    → IsWellFormed m
    → IsWellFormed (record m { objects = update_object f r m.objects })
update-IsWellFormed m f r keeps w = record {
  distinct = w.distinct;
  points = Points-update f r m.objects m.active keeps w.points;
}

interrupt-IsWellFormed :
    (m : SessionManager) (id : Bytes) (cause : InterruptCause)
    → IsWellFormed m
    → IsWellFormed (interrupt_session m id cause).1
unfolding interrupt_session interrupt
interrupt-IsWellFormed m id cause w = elim (Option-cases (find_key id m.active)) [
  | inl e ↦ rw (interrupt_session, e) w
  | inr (r, e) ↦ rw (interrupt_session, e) (update-IsWellFormed m (interrupt cause) r (λ s. refl) w)
]

step-IsWellFormed : (m : SessionManager) (c : Call) → IsWellFormed m → IsWellFormed (step m c)
unfolding step create_new_connection create_owned_session timeout_sweep_once
step-IsWellFormed m (connects db now id) w =
    let done : Result SessionError SessionManager = ok (add_session m (new_session id [] now)) in
    absent_guarded m id id_collision (throw_if (not (is_some db)) database_closed >> done) w
      λ f. guarded m (not (is_some db)) database_closed done w (added m id [] now w f)
step-IsWellFormed m (creates db now id owner) w =
    let done : Result SessionError SessionManager = ok (add_session m (new_session id owner now)) in
    let opened : Result SessionError SessionManager =
      throw_if (not (is_some db)) database_closed >> done in
    let fresh : Result SessionError SessionManager =
      throw_if (is_some (find_key id m.active)) id_collision >> opened in
    let full : Bool = leb (read_max_sessions db) (length m.active) in
    guarded m (not (is_valid_principal_hex owner)) owner_malformed
      (throw_if full session_limit >> fresh) w
      (guarded m full session_limit fresh w (
        absent_guarded m id id_collision opened w
          λ f. guarded m (not (is_some db)) database_closed done w (added m id owner now w f)))
step-IsWellFormed m (disconnects id) w = disconnect-IsWellFormed m id w
step-IsWellFormed m (destroys id principal) w = destroy-IsWellFormed m id principal w
step-IsWellFormed m (destroys_all principal) w = destroy_all-IsWellFormed m principal w
step-IsWellFormed m (interrupts_one id cause) w = interrupt-IsWellFormed m id cause w
step-IsWellFormed m (sweeps now) w = record {
  distinct = w.distinct;
  points = Points-sweep now m.active m.objects m.active w.points;
}

-- After any calls on a well-formed manager, whichever of them throw, no id stands twice in the map
-- of sessions, and every entry points to a session that has the entry's id.
pub run-IsWellFormed :
    (calls : List Call) (m : SessionManager) → IsWellFormed m → IsWellFormed (run m calls)
unfolding run
run-IsWellFormed [] m w = w
run-IsWellFormed (c ∷ calls) m w = run-IsWellFormed calls (step m c) (step-IsWellFormed m c w)

pub new_manager-IsWellFormed : IsWellFormed new_manager
new_manager-IsWellFormed = record { distinct = tt; points = tt }
