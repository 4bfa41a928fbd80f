-- ===== src/Http/Routes/Isolation.antt =====
-- What the requests of others leave of a principal's sessions.
use duckdb_flock.Base.{
  ℕ, get_elem?, ◌==◌, Bool, true, false, Option, ap, ◌≡◌, ◌≢◌, refl, ◌∙◌, inl, inr, none, some, [],
  ◌∷◌, Bytes, bytes_eq, bytes_eq→eq, if◌then◌else◌, Bool-cases, Option-cases, arith,
}
use duckdb_flock.Crypto.Openssl.{Openssl}
use duckdb_flock.Session.{
  SessionManager, InterruptCause, interrupt_session, interrupt, destroy_all_owned_by, HarborSession,
  update_object,
}
use duckdb_flock.Timeout.{arm, disarm}
use duckdb_flock.Session.Assoc.{find_key}
use duckdb_flock.Session.WellFormed.{IsWellFormed, get_elem?-update, map_option}
use duckdb_flock.Session.Ownership.{
  owner_of, owns, create_owned_session-owner, destroy_owned_session-owner,
  destroy_all_owned_by-owner, create_new_connection-owner, disconnect_connection-owner,
}
use duckdb_flock.Http.{HttpRequest, HttpResponse, extract_json_session_id}
use duckdb_flock.Http.Sql.{Environment, HandlerState, authenticate, sql_session_id}
use duckdb_flock.Http.Sql.Admission.{Parser}
use duckdb_flock.Http.Auth.{login_session_id}
use duckdb_flock.Http.Sql.Guarded.{Moment, guarded, timeout_seconds}
use duckdb_flock.Http.Quack.{connection_request, disconnect_message}
use duckdb_flock.Http.Routes.{
  Route, post_sql, post_quack, post_sessions_new, post_sql_cancel, get_sessions, post_interrupt,
  post_checkpoint, post_login, post_logout, serve,
}
use duckdb_flock.Http.Routes
use duckdb_flock.Http.Routes.Changes.{serve-changes}
use duckdb_flock.Http.Routes.Grounds.{Changed}

-- A change of a session that keeps its owner.
update_object-owner :
    (m : SessionManager) (f : HarborSession → HarborSession) (r : ℕ) (key : Bytes)
    → ((s : HarborSession) → (f s).owner ≡ s.owner)
    → owner_of (record m { objects = update_object f r m.objects }) key ≡ owner_of m key
unfolding owner_of
update_object-owner m f r key keeps = elim (Option-cases (find_key key m.active)) [
  | inl e ↦ ground arith
  | inr (j, e) ↦ rw e (
      ap (λ o. elim o [ none ↦ none | some s ↦ some s.owner ]) (get_elem?-update f m.objects r j)
      ∙ same_owner (r == j) (get_elem? m.objects j))
]
  where
    same_owner :
        (b : Bool) (o : Option HarborSession)
        → elim (if b then map_option f o else o) [ none ↦ none | some s ↦ some s.owner ]
          ≡ elim o [ none ↦ none | some s ↦ some s.owner ]
    same_owner true none = refl
    same_owner true (some s) = ap (λ x. some x) (keeps s)
    same_owner false o = refl

interrupt_session-owner :
    (m : SessionManager) (id key : Bytes) (cause : InterruptCause)
    → owner_of (interrupt_session m id cause).1 key ≡ owner_of m key
unfolding interrupt_session interrupt
interrupt_session-owner m id key cause = elim (Option-cases (find_key id m.active)) [
  | inl e ↦ rw (interrupt_session, e) refl
  | inr (r, e) ↦
      rw (interrupt_session, e) (update_object-owner m (interrupt cause) r key (λ s. refl))
]

pub guarded-keeps :
    (sql : Bytes) (t : Moment) (seconds : ℕ) (s : HarborSession)
    → ((guarded sql t seconds s).owner ≡ s.owner)
      × ((guarded sql t seconds s).session_id ≡ s.session_id)
unfolding guarded arm disarm
guarded-keeps sql t seconds s = (ground arith, ground arith)

destroy_all-keeps :
    (m : SessionManager) (p key w : Bytes)
    → IsWellFormed m
    → owner_of m key ≡ some w
    → p ≢ w
    → owner_of (destroy_all_owned_by m p).1 key ≡ some w
destroy_all-keeps m [] key w well owned foreign = unfold destroy_all_owned_by in owned
destroy_all-keeps m (c ∷ p) key w well owned foreign =
    let same = bytes_eq→eq w (c ∷ p) in
    let kept = (destroy_all_owned_by-owner m (c ∷ p) key well refl).0 in ground arith

-- No message of /quack that disconnects the session of that id.
abbrev pub Spares : Bytes → Route → Type 0
Spares key (post_quack (disconnect_message id)) = id ≢ key
Spares key _ = Unit

-- A session of `w` survives the changes that somebody else may make.
Changed-isolates :
    (o : Openssl) (e : Environment) (p : Parser) (r : Route) (req : HttpRequest)
    (st : HandlerState o) (after : SessionManager) (key w : Bytes)
    → IsWellFormed st.sessions
    → owner_of st.sessions key ≡ some w
    → ((session_id : Bytes) → (authenticate o e session_id req st).0.principal_id ≢ w)
    → Spares key r
    → Changed o e p r req st after
    → owner_of after key ≡ some w
Changed-isolates o e p (post_sessions_new generated) req st after key w well owned other spares
      (_, sid, _, made) =
    let (kept, free, _) =
      create_owned_session-owner st.sessions after e.db e.steady_now sid
        (authenticate o e sql_session_id req st).0.principal_id key well made in
    elim (Bool-cases (bytes_eq sid key)) [
      | inl same ↦ let k = bytes_eq→eq sid key same in absurd (ground arith)
      | inr differs ↦ kept ∙ (rw differs owned)
    ]
Changed-isolates o e p Routes.delete_session req st after key w well owned other spares (_, made) =
    let principal = (authenticate o e sql_session_id req st).0.principal_id in
    let (_, kept) = destroy_owned_session-owner st.sessions req.match principal key well in
    let foreign = other sql_session_id in rw made (kept ∙ untouched principal foreign)
  where
    untouched :
        (p : Bytes)
        → p ≢ w
        → (if owns (owner_of st.sessions req.match) p
            then (if bytes_eq req.match key then none else owner_of st.sessions key)
            else owner_of st.sessions key)
          ≡ some w
    untouched p foreign = elim (Bool-cases (bytes_eq req.match key)) [
      | inl same ↦ let k = bytes_eq→eq req.match key same in let l = bytes_eq→eq w p in ground arith
      | inr differs ↦ ground arith
    ]
Changed-isolates o e p post_sql_cancel req st after key w well owned other spares
      (_, _, (body, _, _, made)) =
    rw made (interrupt_session-owner st.sessions (extract_json_session_id body) key _ ∙ owned)
Changed-isolates o e p post_interrupt req st after key w well owned other spares
      (_, _, (body, _, _, made)) =
    rw made (interrupt_session-owner st.sessions (extract_json_session_id body) key _ ∙ owned)
Changed-isolates o e p post_logout req st after key w well owned other spares (_, _, made) =
    rw made (
      destroy_all-keeps st.sessions (authenticate o e login_session_id req st).0.principal_id key w
        well owned (other login_session_id))
Changed-isolates o e p (post_sql busy at) req st after key w well owned other spares
      (a, _, r, _, t, _, made) =
    rw made (
      update_object-owner st.sessions (guarded a.request.sql t (timeout_seconds e)) r key
        (λ s. (guarded-keeps a.request.sql t (timeout_seconds e) s).0)
      ∙ owned)
Changed-isolates o e p (post_quack (connection_request id auth_string)) req st after key w well
      owned other spares (_, made) =
    let (kept, free) =
      create_new_connection-owner st.sessions after e.db e.steady_now id key well made in
    elim (Bool-cases (bytes_eq id key)) [
      | inl same ↦ let k = bytes_eq→eq id key same in absurd (ground arith)
      | inr differs ↦ kept ∙ (rw differs owned)
    ]
Changed-isolates o e p (post_quack (disconnect_message id)) req st after key w well owned other
      spares made =
    let same = bytes_eq→eq id key in
    rw made (disconnect_connection-owner st.sessions id key well ∙ ground arith)
Changed-isolates o e p get_sessions req st after key w well owned other spares c = absurd c
Changed-isolates o e p post_checkpoint req st after key w well owned other spares c = absurd c
Changed-isolates o e p (post_login iso_utc) req st after key w well owned other spares c = absurd c

-- A session stays with its owner: a request of any of the routes, in any state of a well-formed
-- manager, that does not authenticate as the owner and is no disconnect of that session leaves the session in the map, under
-- its id, and the owner's.
pub serve-isolates :
    (o : Openssl) (e : Environment) (p : Parser) (r : Route) (req : HttpRequest)
    (res : HttpResponse) (st : HandlerState o) (key w : Bytes)
    → IsWellFormed st.sessions
    → owner_of st.sessions key ≡ some w
    → ((session_id : Bytes) → (authenticate o e session_id req st).0.principal_id ≢ w)
    → Spares key r
    → owner_of (serve o e p r req res st).sessions key ≡ some w
serve-isolates o e p r req res st key w well owned other spares =
    elim (serve-changes o e p r req res st) [
      | inl same ↦ rw same owned
      | inr change ↦
          Changed-isolates o e p r req st (serve o e p r req res st).sessions key w well owned other
            spares change
    ]
