-- ===== src/Http/Routes/Changes.antt =====
-- On which grounds a route changes the sessions.
use duckdb_flock.Base.{◌≡◌, ◌⊎◌, refl, inl, not, ◌&&◌, codes}
use duckdb_flock.Crypto.Openssl.{Openssl}
use duckdb_flock.Http.{
  HttpRequest, HttpResponse, apply_cors, read_ubigint_setting, default_max_body_bytes,
  has_json_content_type, read_max_body_bytes,
}
use duckdb_flock.Http.Origin.{
  is_cookie, has_allowed_browser_origin, has_allowed_browser_origin_if_cookie,
}
use duckdb_flock.Http.Sql.{
  Environment, HandlerState, authenticate, is_authorized, sql_session_id, authz_create_session,
  authz_delete_session, authz_cancel_session, handle_session_new, handle_session_delete,
  handle_sql_cancel,
}
use duckdb_flock.Http.Sql.Admission.{Parser, handle_sql}
use duckdb_flock.Http.Sql.Admission.Sound.{handle_sql-keeps}
use duckdb_flock.Http.Admin.{
  admin_session_id, authz_sessions_list, authz_sessions_interrupt, handle_sessions,
  handle_interrupt, checkpoint_gates,
}
use duckdb_flock.Http.Auth.{handle_login, login_token, handle_logout, destroy_on_logout}
use duckdb_flock.Http.Routes.{
  Route, post_sql, post_quack, post_sessions_new, post_sql_cancel, get_sessions, post_interrupt,
  post_checkpoint, post_login, post_logout, serve,
}
use duckdb_flock.Http.Routes
use duckdb_flock.Http.Routes.Grounds.{Changed}
use duckdb_flock.Http.Routes.Handlers.{
  choose, not-eq-false, either_map, try_new_session-changes, delete_session-changes,
  cancel_session-changes, interrupt_named-changes, login_with-keeps, checkpoint-keeps,
  destroy_on_logout-changes, after_admission-changes, handle_message-changes,
}

pub serve-changes :
    (o : Openssl) (e : Environment) (p : Parser) (r : Route) (req : HttpRequest)
    (res : HttpResponse) (st : HandlerState o)
    → ((serve o e p r req res st).sessions ≡ st.sessions)
      ⊎ Changed o e p r req st (serve o e p r req res st).sessions
unfolding serve handle_session_new handle_session_delete handle_sql_cancel handle_sessions
    handle_interrupt checkpoint_gates handle_login handle_logout destroy_on_logout
serve-changes o e p (post_sql busy at) req res st =
    after_admission-changes o e p busy at req st (handle_sql o e p req busy st).1
      (handle_sql o e p req busy st).0 refl (handle_sql-keeps o e p req busy st)
serve-changes o e p (post_quack message) req res st = handle_message-changes o e p message req st
serve-changes o e p (post_sessions_new generated) req res st =
    let Q = λ (s : HandlerState o).
      (s.sessions ≡ st.sessions) ⊎ Changed o e p (post_sessions_new generated) req st s.sessions in
    let (authn, st1) = authenticate o e sql_session_id req st in
    choose Q (not authn.success) _ _ (λ _. inl refl)
      (λ a.
        choose Q (not (is_authorized o e sql_session_id authz_create_session)) _ _ (λ _. inl refl)
          (λ b.
            either_map (λ h. ((not-eq-false _ a, not-eq-false _ b), h.0, h.1, h.2))
              (try_new_session-changes o e generated authn.principal_id (apply_cors e.auth req res)
                st1)))
serve-changes o e p Routes.delete_session req res st =
    let Q = λ (s : HandlerState o).
      (s.sessions ≡ st.sessions) ⊎ Changed o e p Routes.delete_session req st s.sessions in
    let (authn, st1) = authenticate o e sql_session_id req st in
    choose Q (not authn.success) _ _ (λ _. inl refl)
      (λ a.
        choose Q (not (is_authorized o e sql_session_id authz_delete_session)) _ _ (λ _. inl refl)
          (λ b.
            either_map (λ h. ((not-eq-false _ a, not-eq-false _ b), h))
              (delete_session-changes o e req.match authn.principal_id (apply_cors e.auth req res)
                st1)))
serve-changes o e p post_sql_cancel req res st =
    let Q = λ (s : HandlerState o).
      (s.sessions ≡ st.sessions) ⊎ Changed o e p post_sql_cancel req st s.sessions in
    let (authn, st1) = authenticate o e sql_session_id req st in
    let limit =
      read_ubigint_setting e.db (codes "harbor_max_request_body_bytes") default_max_body_bytes in
    choose Q (not authn.success) _ _ (λ _. inl refl)
      (λ a.
        choose Q (is_cookie authn.source && not (has_allowed_browser_origin e.uri e.auth req)) _ _
          (λ _. inl refl)
          (λ c.
            choose Q (not (is_authorized o e sql_session_id authz_cancel_session)) _ _
              (λ _. inl refl)
              (λ b.
                choose Q (not (has_json_content_type e.string_util req.content_type)) _ _
                  (λ _. inl refl)
                  (λ _.
                    either_map (λ h. ((not-eq-false _ a, not-eq-false _ b), c, h))
                      (cancel_session-changes o e limit req (apply_cors e.auth req res) st1 _
                        refl)))))
serve-changes o e p get_sessions req res st =
    let Q = λ (s : HandlerState o).
      (s.sessions ≡ st.sessions) ⊎ Changed o e p get_sessions req st s.sessions in
    choose Q (not (authenticate o e admin_session_id req st).0.success) _ _ (λ _. inl refl)
      (λ a.
        choose Q (not (is_authorized o e admin_session_id authz_sessions_list)) _ _ (λ _. inl refl)
          (λ _. inl refl))
serve-changes o e p post_interrupt req res st =
    let Q = λ (s : HandlerState o).
      (s.sessions ≡ st.sessions) ⊎ Changed o e p post_interrupt req st s.sessions in
    let (authn, st1) = authenticate o e admin_session_id req st in
    choose Q (not authn.success) _ _ (λ _. inl refl)
      (λ a.
        choose Q (not (has_allowed_browser_origin_if_cookie e.auth req authn.source)) _ _
          (λ _. inl refl)
          (λ c.
            choose Q (not (is_authorized o e admin_session_id authz_sessions_interrupt)) _ _
              (λ _. inl refl)
              (λ b.
                choose Q (not (has_json_content_type e.string_util req.content_type)) _ _
                  (λ _. inl refl)
                  (λ _.
                    either_map (λ h. ((not-eq-false _ a, not-eq-false _ b), not-eq-false _ c, h))
                      (interrupt_named-changes o e (read_max_body_bytes e.db) req res st1 _
                        refl)))))
serve-changes o e p post_checkpoint req res st = inl (checkpoint-keeps o e req res st)
serve-changes o e p (post_login iso_utc) req res st = inl (
    login_with-keeps o e iso_utc req (apply_cors e.auth req res) st (login_token e.string_util req))
serve-changes o e p post_logout req res st = destroy_on_logout-changes o e p req st
