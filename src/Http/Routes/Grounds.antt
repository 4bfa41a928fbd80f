-- ===== src/Http/Routes/Grounds.antt =====
-- The changes of the sessions that the routes may make, and the grounds for them.
use duckdb_flock.Base.{
  ℕ, ◌≡◌, Bool, true, false, not, ◌&&◌, ◌||◌, Option, some, [], Bytes, codes, is_empty, ok,
  bytes_eq,
}
use duckdb_flock.Crypto.Openssl.{Openssl}
use duckdb_flock.Session.{
  SessionManager, create_owned_session, destroy_owned_session, destroy_all_owned_by,
  interrupt_session, user_cancel, update_object, create_new_connection, disconnect_connection,
}
use duckdb_flock.Auth.Manager.{run_authentication}
use duckdb_flock.Http.{
  HttpRequest, read_ubigint_setting, default_max_body_bytes, read_bounded_body, read_max_body_bytes,
  extract_json_session_id,
}
use duckdb_flock.Http.Origin.{
  is_cookie, has_allowed_browser_origin, has_allowed_browser_origin_if_cookie,
}
use duckdb_flock.Http.Sql.{
  Environment, HandlerState, authenticate, is_authorized, sql_session_id, authz_create_session,
  authz_delete_session, authz_cancel_session,
}
use duckdb_flock.Http.Sql.Admission.{Parser, Admitted, handle_sql}
use duckdb_flock.Http.Sql.Guarded.{Moment, guarded, timeout_seconds}
use duckdb_flock.Http.Quack.{connection_request, disconnect_message}
use duckdb_flock.Http.Admin.{admin_session_id, authz_sessions_interrupt}
use duckdb_flock.Http.Auth.{login_session_id}
use duckdb_flock.Http.Routes.{
  Route, post_sql, post_quack, post_sessions_new, post_sql_cancel, get_sessions, post_interrupt,
  post_checkpoint, post_login, post_logout, serve,
}
use duckdb_flock.Http.Routes

-- The caller is authenticated, and the callback allows the action.
abbrev pub MayDo :
    (o : Openssl) → Environment → HttpRequest → HandlerState o → Bytes → Bytes → Type 0
MayDo o e req st session_id action =
    ((authenticate o e session_id req st).0.success ≡ true)
    × (is_authorized o e session_id action ≡ true)

-- The parameter of a logout that asks for the end of the sessions.
abbrev pub asks_to_destroy : Environment → HttpRequest → Bool
asks_to_destroy e req =
    bytes_eq (e.string_util.lower req.destroy_sessions) (codes "true")
    || bytes_eq req.destroy_sessions (codes "1")

-- The session that the body of a request names is interrupted; the body was read up to a limit.
abbrev pub InterruptsNamed : ℕ → HttpRequest → SessionManager → SessionManager → Type 0
InterruptsNamed limit req before after =
    (body : Bytes) × (read_bounded_body limit [] req.chunks ≡ some body)
    × (is_empty (extract_json_session_id body) ≡ false)
    × (after ≡ (interrupt_session before (extract_json_session_id body) user_cancel).1)

-- A statement was admitted into a session, and its guard was made and destroyed there.
abbrev pub Guards :
    (o : Openssl)
    → Environment
    → (p : Parser) → (ℕ → Bool)
    → Option Moment
    → HttpRequest
    → HandlerState o
    → SessionManager
    → Type 0
Guards o e p busy at req st after =
    (a : Admitted p) × ((handle_sql o e p req busy st).0 ≡ ok a)
    × (r : ℕ) × (a.session ≡ some r)
    × (t : Moment) × (at ≡ some t)
    × (after ≡ record st.sessions {
      objects = update_object (guarded a.request.sql t (timeout_seconds e)) r st.sessions.objects;
    })

-- The change of the sessions that a route may make, with the grounds for it.
abbrev pub Changed :
    (o : Openssl)
    → Environment
    → Parser
    → Route
    → HttpRequest
    → HandlerState o
    → SessionManager
    → Type 0
Changed o e p (post_sql busy at) req st after = Guards o e p busy at req st after
Changed o e p (post_quack (connection_request id auth_string)) req st after =
    (run_authentication e.auth e.db id auth_string ≡ true)
    × (create_new_connection st.sessions e.db e.steady_now id ≡ ok after)
Changed o e p (post_quack (disconnect_message id)) req st after =
    after ≡ (disconnect_connection st.sessions id).1
Changed o e p (post_sessions_new generated) req st after =
    MayDo o e req st sql_session_id authz_create_session
    × (sid : Bytes) × (generated ≡ ok sid)
    × (create_owned_session st.sessions e.db e.steady_now sid
          (authenticate o e sql_session_id req st).0.principal_id
        ≡ ok after)
Changed o e p Routes.delete_session req st after =
    MayDo o e req st sql_session_id authz_delete_session
    × (after
        ≡ (destroy_owned_session st.sessions req.match
            (authenticate o e sql_session_id req st).0.principal_id).1)
Changed o e p post_sql_cancel req st after =
    MayDo o e req st sql_session_id authz_cancel_session
    × ((is_cookie (authenticate o e sql_session_id req st).0.source
          && not (has_allowed_browser_origin e.uri e.auth req))
        ≡ false)
    × InterruptsNamed
        (read_ubigint_setting e.db (codes "harbor_max_request_body_bytes") default_max_body_bytes)
        req st.sessions after
Changed o e p post_interrupt req st after =
    MayDo o e req st admin_session_id authz_sessions_interrupt
    × (has_allowed_browser_origin_if_cookie e.auth req
          (authenticate o e admin_session_id req st).0.source
        ≡ true)
    × InterruptsNamed (read_max_body_bytes e.db) req st.sessions after
Changed o e p post_logout req st after =
    ((authenticate o e login_session_id req st).0.success ≡ true)
    × (asks_to_destroy e req ≡ true)
    × (after
        ≡ (destroy_all_owned_by st.sessions
            (authenticate o e login_session_id req st).0.principal_id).1)
Changed o e p _ req st after = ⊥
