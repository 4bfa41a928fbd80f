-- ===== src/Session/Ownership.antt =====
-- Who owns which session: the map as a function from ids to owners, and what each call does to it.
use duckdb_flock.Base.{
  ℕ, ◌+◌, ◌≤◌, ◌≡◌, refl, sym, ap, Bool, false, Option, none, some, List, [], ◌∷◌, Bytes, bytes_eq,
  bytes_eq→eq, bytes_eq_refl, ◌↔◌, is_empty, length, get_elem?, leb, ok, Option-cases, Bool-cases,
  inl, inr, if◌then◌else◌, arith,
}
use duckdb_flock.Duckdb.{Database}
use duckdb_flock.Session.Assoc.{
  find_key, Distinct, Fresh-find_key, find_key-erase_key, All-find_key,
}
use duckdb_flock.Session.WellFormed.{
  IsWellFormed, Points, get_elem?-append, get_elem?-length, Fresh-destroy,
}
use duckdb_flock.Session.{
  HarborSession, SessionManager, new_session, add_session, create_owned_session, read_max_sessions,
  is_owned_by, lookup_owned_session, destroy_owned_session, destroy_loop, destroy_all_owned_by,
  active_count, is_some, create_new_connection, disconnect_connection,
}

-- The owner of the session at a position.
abbrev owner_at : List HarborSession → ℕ → Option Bytes
owner_at objects r = elim (get_elem? objects r) [ none ↦ none | some s ↦ some s.owner ]

abbrev owner_in : List HarborSession → Option ℕ → Option Bytes
owner_in objects none = none
owner_in objects (some r) = owner_at objects r

-- The owner of the session of an id.
unfoldable pub owner_of : SessionManager → Bytes → Option Bytes
owner_of m id = owner_in m.objects (find_key id m.active)

abbrev pub owns : Option Bytes → Bytes → Bool
owns none p = false
owns (some w) p = bytes_eq w p

owned_pointer :
    (m : SessionManager) (p : Bytes) (r : ℕ) (s : HarborSession)
    → get_elem? m.objects r ≡ some s
    → is_owned_by m p r ≡ bytes_eq s.owner p
unfolding is_owned_by
owned_pointer m p r s at = ground arith

found_session :
    (m : SessionManager) (id p : Bytes) (r : ℕ)
    → IsWellFormed m
    → lookup_owned_session m id p ≡ some r
    → (find_key id m.active ≡ some r)
      × ((s : HarborSession) × (get_elem? m.objects r ≡ some s)
          × (s.session_id ≡ id)
          × (s.owner ≡ p))
unfolding lookup_owned_session
found_session m id p r w h = elim (Option-cases (find_key id m.active)) [
  | inl e ↦ absurd (ground arith)
  | inr (j, e) ↦
      let (s, at, same) = All-find_key (Points m.objects) id m.active j w.points e in
      let o = owned_pointer m p j s at in
      let owner = bytes_eq→eq s.owner p in
      let k : j ≡ r = ground arith in (ground arith, (s, ground arith, same, ground arith))
]

lookup-found :
    (m : SessionManager) (id p : Bytes) (r : ℕ) (s : HarborSession)
    → find_key id m.active ≡ some r
    → get_elem? m.objects r ≡ some s
    → s.owner ≡ p
    → lookup_owned_session m id p ≡ some r
unfolding lookup_owned_session
lookup-found m id p r s e at owner =
    let o = owned_pointer m p r s at in let same = bytes_eq_refl p in ground arith

-- In a well-formed manager a principal gets a session by an id exactly if the map has an entry of
-- that id which points to a session that has this id and belongs to the principal, and it is that
-- session that it gets; so that an id of another's session and an id of none are told apart by
-- nothing.
pub lookup_owned_session-owner :
    (m : SessionManager) (id p : Bytes)
    → IsWellFormed m
    → ((r : ℕ)
        → (lookup_owned_session m id p ≡ some r) ↔ (
            (find_key id m.active ≡ some r)
            × ((s : HarborSession) × (get_elem? m.objects r ≡ some s)
                × (s.session_id ≡ id)
                × (s.owner ≡ p))))
      × (is_some (lookup_owned_session m id p) ≡ owns (owner_of m id) p)
unfolding lookup_owned_session owner_of is_owned_by
lookup_owned_session-owner m id p w = (
  λ r. (λ h. found_session m id p r w h, λ (e, f). lookup-found m id p r f.0 e f.1 f.3),
  ground arith,
)

-- In a well-formed manager, destroying a session succeeds exactly if the principal owns it; then
-- the session of that id is gone; every other session keeps its owner, and all do on failure.
pub destroy_owned_session-owner :
    (m : SessionManager) (id p key : Bytes)
    → IsWellFormed m
    → ((destroy_owned_session m id p).0 ≡ owns (owner_of m id) p)
      × (owner_of (destroy_owned_session m id p).1 key ≡ (
          if owns (owner_of m id) p
          then (if bytes_eq id key then none else owner_of m key)
          else owner_of m key))
unfolding destroy_owned_session owner_of is_owned_by
destroy_owned_session-owner m id p key w =
    (ground arith, ground (arith, find_key-erase_key id key m.active w.distinct))

found_at :
    (m : SessionManager) (key : Bytes) (r : ℕ)
    → IsWellFormed m
    → find_key key m.active ≡ some r
    → (s : HarborSession) × (get_elem? m.objects r ≡ some s)
found_at m key r w e =
    let (s, at, id) = All-find_key (Points m.objects) key m.active r w.points e in (s, at)

add_session-owner :
    (m : SessionManager) (x : HarborSession) (key : Bytes)
    → IsWellFormed m
    → owner_of (add_session m x) key
      ≡ (if bytes_eq x.session_id key then some x.owner else owner_of m key)
unfolding add_session owner_of find_key
add_session-owner m x key w = elim (Bool-cases (bytes_eq x.session_id key)) [
  | inl e ↦ ground (arith, get_elem?-length m.objects x)
  | inr e ↦ elim (Option-cases (find_key key m.active)) [
    | inl f ↦ ground arith
    | inr (r, f) ↦
        let (s, at) = found_at m key r w f in
        let kept = get_elem?-append m.objects x s r at in ground arith
  ]
]

added_owner :
    (m : SessionManager) (id owner key : Bytes) (now : ℕ)
    → IsWellFormed m
    → owner_of (add_session m (new_session id owner now)) key
      ≡ (if bytes_eq id key then some owner else owner_of m key)
unfolding new_session
added_owner m id owner key now w = add_session-owner m (new_session id owner now) key w

one_more :
    (m : SessionManager) (x : HarborSession) (limit : ℕ)
    → leb limit (length m.active) ≡ false
    → length (add_session m x).active ≤ limit
unfolding add_session
one_more m x limit h = ground arith

-- In a well-formed manager, a session that was created belongs to its principal from then on, and
-- no other session changes hands. Its id was free, and with it the sessions are within the limit.
pub create_owned_session-owner :
    (m m' : SessionManager) (db : Option Database) (now : ℕ) (id owner key : Bytes)
    → IsWellFormed m
    → create_owned_session m db now id owner ≡ ok m'
    → (owner_of m' key ≡ (if bytes_eq id key then some owner else owner_of m key))
      × (owner_of m id ≡ none)
      × (active_count m' ≤ read_max_sessions db)
unfolding create_owned_session active_count
create_owned_session-owner m m' db now id owner key w h =
    elim (Bool-cases (leb (read_max_sessions db) (length m.active))) [
      | inl full ↦ absurd (ground arith)
      | inr room ↦
          let made : m' ≡ add_session m (new_session id owner now) = ground arith in
          let free : find_key id m.active ≡ none = ground arith in
          let unowned : owner_of m id ≡ none = unfold owner_of in ap (owner_in m.objects) free in
          (
            rw made (added_owner m id owner key now w),
            unowned,
            rw made (one_more m (new_session id owner now) (read_max_sessions db) room),
          )
    ]

-- A connection without a principal: its id was free, and no other session changes hands.
pub create_new_connection-owner :
    (m m' : SessionManager) (db : Option Database) (now : ℕ) (id key : Bytes)
    → IsWellFormed m
    → create_new_connection m db now id ≡ ok m'
    → (owner_of m' key ≡ (if bytes_eq id key then some [] else owner_of m key))
      × (owner_of m id ≡ none)
unfolding create_new_connection
create_new_connection-owner m m' db now id key w h =
    let made : m' ≡ add_session m (new_session id [] now) = ground arith in
    let free : find_key id m.active ≡ none = ground arith in
    let unowned : owner_of m id ≡ none = unfold owner_of in ap (owner_in m.objects) free in
    (rw made (added_owner m id [] key now w), unowned)

-- A disconnect takes the session of its id out, whoever owns it.
pub disconnect_connection-owner :
    (m : SessionManager) (id key : Bytes)
    → IsWellFormed m
    → owner_of (disconnect_connection m id).1 key
      ≡ (if bytes_eq id key then none else owner_of m key)
unfolding disconnect_connection owner_of
disconnect_connection-owner m id key w = elim (Option-cases (find_key id m.active)) [
  | inl e ↦ let same = bytes_eq→eq id key in ground arith
  | inr (r, e) ↦ ground (arith, find_key-erase_key id key m.active w.distinct)
]

find_key-destroy :
    (m : SessionManager) (p key : Bytes) (entries : List (Bytes × ℕ))
    → Distinct entries
    → owner_in m.objects (find_key key (destroy_loop m p entries).0) ≡ (
        if owns (owner_in m.objects (find_key key entries)) p
        then none
        else owner_in m.objects (find_key key entries))
unfolding destroy_loop find_key is_owned_by
find_key-destroy m p key [] d = refl
find_key-destroy m p key ((k, r) ∷ entries) d = elim (Bool-cases (bytes_eq k key)) [
  | inr other ↦ ground (arith, find_key-destroy m p key entries d.1)
  | inl same ↦
      let this = bytes_eq→eq k key same in
      let gone =
        Fresh-find_key key (destroy_loop m p entries).0
          (Fresh-destroy m p key entries (rw (sym this) d.0)) in
      ground (arith, gone)
]

length-destroy :
    (m : SessionManager) (p : Bytes) (entries : List (Bytes × ℕ))
    → length (destroy_loop m p entries).0 + (destroy_loop m p entries).1 ≡ length entries
unfolding destroy_loop
length-destroy m p [] = refl
length-destroy m p ((k, r) ∷ entries) = ground (arith, length-destroy m p entries)

-- In a well-formed manager, and for a principal that is not the empty text: all sessions of the
-- principal are destroyed and no other; what is returned is their number.
pub destroy_all_owned_by-owner :
    (m : SessionManager) (p key : Bytes)
    → IsWellFormed m
    → is_empty p ≡ false
    → (owner_of (destroy_all_owned_by m p).1 key
        ≡ (if owns (owner_of m key) p then none else owner_of m key))
      × (active_count (destroy_all_owned_by m p).1 + (destroy_all_owned_by m p).0 ≡ active_count m)
unfolding destroy_all_owned_by owner_of active_count
destroy_all_owned_by-owner m p key w h =
    rw h (find_key-destroy m p key m.active w.distinct, length-destroy m p m.active)
