-- ===== src/Http/Routes/Sequence.antt =====
-- Requests one after another.
use duckdb_flock.Base.{◌≡◌, ◌≢◌, inl, inr, some, List, [], ◌∷◌, Bytes}
use mathlib.Core.Path.{subst}
use duckdb_flock.Crypto.Openssl.{Openssl}
use duckdb_flock.Session.{
  SessionManager, Call, creates, connects, disconnects, destroys, destroys_all, interrupts_one, run,
  step, kept, user_cancel,
}
use duckdb_flock.Session.WellFormed.{IsWellFormed, run-IsWellFormed, update-IsWellFormed}
use duckdb_flock.Session.Ownership.{owner_of}
use duckdb_flock.Http.{HttpRequest, HttpResponse, extract_json_session_id}
use duckdb_flock.Http.Sql.{Environment, HandlerState, authenticate, sql_session_id}
use duckdb_flock.Http.Sql.Admission.{Parser}
use duckdb_flock.Http.Auth.{login_session_id}
use duckdb_flock.Http.Sql.Guarded.{guarded, timeout_seconds}
use duckdb_flock.Http.Quack.{connection_request, disconnect_message}
use duckdb_flock.Http.Routes.{
  Route, post_sql, post_quack, post_sessions_new, post_sql_cancel, get_sessions, post_interrupt,
  post_checkpoint, post_login, post_logout, serve,
}
use duckdb_flock.Http.Routes
use duckdb_flock.Http.Routes.Changes.{serve-changes}
use duckdb_flock.Http.Routes.Grounds.{Changed}
use duckdb_flock.Http.Routes.Isolation.{serve-isolates, Spares, guarded-keeps}

step_well : (m : SessionManager) (c : Call) → IsWellFormed m → IsWellFormed (step m c)
step_well m c well = unfold run in run-IsWellFormed (c ∷ []) m well

Changed-IsWellFormed :
    (o : Openssl) (e : Environment) (p : Parser) (r : Route) (req : HttpRequest)
    (st : HandlerState o) (after : SessionManager)
    → IsWellFormed st.sessions
    → Changed o e p r req st after
    → IsWellFormed after
unfolding step
Changed-IsWellFormed o e p (post_sessions_new generated) req st after well (_, sid, _, made) =
    let principal = (authenticate o e sql_session_id req st).0.principal_id in
    subst (λ x. IsWellFormed (kept st.sessions x)) made
      (step_well st.sessions (creates e.db e.steady_now sid principal) well)
Changed-IsWellFormed o e p Routes.delete_session req st after well (_, made) = rw made (
    step_well st.sessions
      (destroys req.match (authenticate o e sql_session_id req st).0.principal_id) well)
Changed-IsWellFormed o e p post_sql_cancel req st after well (_, _, (body, _, _, made)) =
    rw made (step_well st.sessions (interrupts_one (extract_json_session_id body) user_cancel) well)
Changed-IsWellFormed o e p post_interrupt req st after well (_, _, (body, _, _, made)) =
    rw made (step_well st.sessions (interrupts_one (extract_json_session_id body) user_cancel) well)
Changed-IsWellFormed o e p post_logout req st after well (_, _, made) = rw made (
    step_well st.sessions (destroys_all (authenticate o e login_session_id req st).0.principal_id)
      well)
Changed-IsWellFormed o e p (post_sql busy at) req st after well (a, _, r, _, t, _, made) = rw made (
    update-IsWellFormed st.sessions (guarded a.request.sql t (timeout_seconds e)) r
      (λ s. (guarded-keeps a.request.sql t (timeout_seconds e) s).1) well)
Changed-IsWellFormed o e p (post_quack (connection_request id auth_string)) req st after well
      (_, made) =
    subst (λ x. IsWellFormed (kept st.sessions x)) made
      (step_well st.sessions (connects e.db e.steady_now id) well)
Changed-IsWellFormed o e p (post_quack (disconnect_message id)) req st after well made =
    rw made (step_well st.sessions (disconnects id) well)
Changed-IsWellFormed o e p get_sessions req st after well c = absurd c
Changed-IsWellFormed o e p post_checkpoint req st after well c = absurd c
Changed-IsWellFormed o e p (post_login iso_utc) req st after well c = absurd c

serve-IsWellFormed :
    (o : Openssl) (e : Environment) (p : Parser) (r : Route) (req : HttpRequest)
    (res : HttpResponse) (st : HandlerState o)
    → IsWellFormed st.sessions
    → IsWellFormed (serve o e p r req res st).sessions
serve-IsWellFormed o e p r req res st well = elim (serve-changes o e p r req res st) [
  | inl same ↦ rw same well
  | inr change ↦ Changed-IsWellFormed o e p r req st (serve o e p r req res st).sessions well change
]

-- A request with what it finds around it.
pub record Arrival : Type 0 where
  pub environment : Environment
  pub route : Route
  pub request : HttpRequest
  pub response : HttpResponse

unfoldable pub serve_all : (o : Openssl) → Parser → List Arrival → HandlerState o → HandlerState o
unfolding serve
serve_all o p [] st = st
serve_all o p (a ∷ arrivals) st =
    serve_all o p arrivals (serve o a.environment p a.route a.request a.response st)

-- None of the requests, in the state that it finds, authenticates as `w`, and none is a disconnect of
-- the session of that id.
abbrev pub NeverAs : (o : Openssl) → Parser → Bytes → Bytes → List Arrival → HandlerState o → Type 0
NeverAs o p key w [] st = Unit
NeverAs o p key w (a ∷ arrivals) st =
    ((session_id : Bytes)
      → (authenticate o a.environment session_id a.request st).0.principal_id ≢ w)
    × Spares key a.route
    × NeverAs o p key w arrivals (serve o a.environment p a.route a.request a.response st)

-- For any sequence of requests of the routes that are modelled, with whatever settings, clocks and
-- exceptions, as long as none of them authenticates as the owner of a session, and none is a message
-- of POST /quack that disconnects the session by its id: the map of sessions stays well-formed, and
-- the session stays in it under its id, as its owner's.
pub serve_all-isolates :
    (o : Openssl) (p : Parser) (arrivals : List Arrival) (st : HandlerState o) (key w : Bytes)
    → IsWellFormed st.sessions
    → owner_of st.sessions key ≡ some w
    → NeverAs o p key w arrivals st
    → IsWellFormed (serve_all o p arrivals st).sessions
      × (owner_of (serve_all o p arrivals st).sessions key ≡ some w)
unfolding serve_all
serve_all-isolates o p [] st key w well owned others = (well, owned)
serve_all-isolates o p (a ∷ arrivals) st key w well owned others =
    serve_all-isolates o p arrivals (serve o a.environment p a.route a.request a.response st) key w
      (serve-IsWellFormed o a.environment p a.route a.request a.response st well)
      (serve-isolates o a.environment p a.route a.request a.response st key w well owned others.0
        others.1)
      others.2
