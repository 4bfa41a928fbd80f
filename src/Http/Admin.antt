-- ===== src/Http/Admin.antt =====
-- src/admin_handlers.cpp: the gates of the admin routes, and the handlers of the sessions.
use duckdb_flock.Base.{
  ℕ, ◌-◌, ◌/◌, Bool, true, false, not, ◌&&◌, ◌||◌, Option, none, some, List, [], ◌∷◌, ◌++◌, Bytes,
  codes, is_empty, bytes_eq, if◌then◌else◌,
}
use duckdb_flock.Crypto.Openssl.{Openssl}
use duckdb_flock.Session.{SessionSnapshot, snapshot, interrupt_session, user_cancel, is_some}
use duckdb_flock.Auth.Cookie.{
  AuthResult, ErrorCode, missing_credential, invalid_token, unsupported_auth_scheme,
  bad_cookie_format, bad_cookie_version, bad_cookie_sig, cookie_expired,
}
use duckdb_flock.Auth.Cookie.Decimal.{to_decimal}
use duckdb_flock.Http.{
  HttpRequest, HttpResponse, utf8, json_response, extract_json_session_id, has_json_content_type,
  read_bounded_body, read_max_body_bytes,
}
use duckdb_flock.Http.Escape.{escape_json_string}
use duckdb_flock.Http.Origin.{has_allowed_browser_origin_if_cookie}
use duckdb_flock.Http.Sql.{Environment, HandlerState, authenticate, is_authorized}

abbrev pub admin_session_id : Bytes
admin_session_id = codes "__HARBOR_AUTH__:admin"

abbrev pub authz_sessions_list : Bytes
authz_sessions_list = codes "__HARBOR_ADMIN__:sessions:list"

abbrev pub authz_sessions_interrupt : Bytes
authz_sessions_interrupt = codes "__HARBOR_ADMIN__:sessions:interrupt"

abbrev pub authz_checkpoint_create : Bytes
authz_checkpoint_create = codes "__HARBOR_ADMIN__:checkpoint:create"

-- `RespondError` of the admin routes.
unfoldable pub respond_admin_error : ℕ → Bytes → Bytes → HttpResponse → HttpResponse
unfolding json_response escape_json_string
respond_admin_error status error_code message res =
    json_response status
      (codes "{\"ok\":false,\"error\":\""
        ++ (escape_json_string message
            ++ (codes "\",\"errorCode\":\"" ++ (escape_json_string error_code ++ codes "\"}"))))
      res

-- The error code and the message that `AuthenticateAdmin` makes of a refusal.
unfoldable pub admin_refusal : ErrorCode → Bytes × Bytes
admin_refusal missing_credential = (
  codes "UNAUTHORIZED",
  utf8 "missing credential — provide Authorization: Bearer or harbor_session cookie",
)
admin_refusal unsupported_auth_scheme = (
  codes "UNSUPPORTED_AUTH_SCHEME",
  utf8 "unsupported Authorization scheme — only Bearer is accepted",
)
admin_refusal invalid_token = (codes "UNAUTHORIZED", codes "invalid bearer token")
admin_refusal bad_cookie_sig =
    (codes "UNAUTHORIZED", codes "harbor_session cookie failed verification")
admin_refusal bad_cookie_format =
    (codes "UNAUTHORIZED", codes "harbor_session cookie failed verification")
admin_refusal bad_cookie_version =
    (codes "UNAUTHORIZED", codes "harbor_session cookie failed verification")
admin_refusal cookie_expired = (codes "UNAUTHORIZED", codes "harbor_session cookie expired")
admin_refusal _ = (codes "UNAUTHORIZED", codes "authentication failed")

unfoldable pub respond_unauthorized : AuthResult → HttpResponse → HttpResponse
unfolding admin_refusal respond_admin_error
respond_unauthorized authn res =
    let (code, message) = admin_refusal authn.error_code in respond_admin_error 401 code message res

unfoldable bool_text : Bool → Bytes
bool_text true = codes "true"
bool_text false = codes "false"

-- One session of the list; times are milliseconds.
unfoldable pub session_text : ℕ → SessionSnapshot → Bytes
unfolding escape_json_string bool_text
session_text now snap =
    codes "{\"session_id\":\""
    ++ (escape_json_string snap.session_id
        ++ (codes "\",\"principal\":\""
            ++ (escape_json_string snap.owner
                ++ (codes "\",\"age_s\":"
                    ++ (to_decimal ((now - snap.created_at) / 1000)
                        ++ (codes ",\"in_flight\":"
                            ++ (bool_text snap.query_in_flight
                                ++ (codes ",\"last_query\":\""
                                    ++ (escape_json_string snap.last_query
                                        ++ (codes "\",\"last_query_truncated\":"
                                            ++ (bool_text snap.last_query_truncated
                                                ++ codes "}")))))))))))

unfoldable pub sessions_text : ℕ → Bool → List SessionSnapshot → Bytes
unfolding session_text
sessions_text now first [] = codes "]}"
sessions_text now first (snap ∷ snapshots) =
    (if first then [] else b',' ∷ [])
    ++ (session_text now snap ++ sessions_text now false snapshots)

module _ (o : Openssl) (e : Environment) where
  unfoldable pub handle_sessions :
      HttpRequest → HttpResponse → HandlerState o → HttpResponse × HandlerState o
  unfolding authenticate is_authorized snapshot sessions_text
  handle_sessions req res st =
      let (authn, st1) = authenticate o e admin_session_id req st in
      if not authn.success
      then (respond_unauthorized authn res, st1)
      else if not (is_authorized o e admin_session_id authz_sessions_list)
      then (
        respond_admin_error 403 (codes "FORBIDDEN")
            (codes "authorization callback rejected the admin call") res,
        st1,
      )
      else (
        json_response 200
            (codes "{\"ok\":true,\"sessions\":["
              ++ sessions_text e.steady_now true (snapshot st1.sessions 200))
            res,
        st1,
      )

  -- The part of `HandleInterrupt` behind the limit on the body.
  unfoldable pub interrupt_named :
      Option Bytes → HttpResponse → HandlerState o → HttpResponse × HandlerState o
  unfolding interrupt_session extract_json_session_id
  interrupt_named none res st = (
    respond_admin_error 413 (codes "PAYLOAD_TOO_LARGE")
        (codes "request body exceeds harbor_max_request_body_bytes") res,
    st,
  )
  interrupt_named (some body) res st =
      let sid = extract_json_session_id body in
      let (found, sessions) = interrupt_session st.sessions sid user_cancel in
      if is_empty sid
      then (
        respond_admin_error 400 (codes "BAD_REQUEST")
            (codes "expected JSON body with a non-empty 'sessionId' field") res,
        st,
      )
      else if not found
      then (
        respond_admin_error 404 (codes "SESSION_NOT_FOUND") (codes "no session with the given id")
            res,
        record st { sessions = sessions },
      )
      else (
        json_response 200
            (codes "{\"ok\":true,\"session_id\":\"" ++ (escape_json_string sid ++ codes "\"}")) res,
        record st { sessions = sessions },
      )

  unfoldable pub handle_interrupt :
      HttpRequest → HttpResponse → HandlerState o → HttpResponse × HandlerState o
  unfolding authenticate is_authorized interrupt_named
  handle_interrupt req res st =
      let (authn, st1) = authenticate o e admin_session_id req st in
      if not authn.success
      then (respond_unauthorized authn res, st1)
      else if not (has_allowed_browser_origin_if_cookie e.auth req authn.source)
      then (
        respond_admin_error 403 (codes "FORBIDDEN")
            (codes "cookie-authenticated /interrupt requires an allowed Origin or Referer") res,
        st1,
      )
      else if not (is_authorized o e admin_session_id authz_sessions_interrupt)
      then (
        respond_admin_error 403 (codes "FORBIDDEN")
            (codes "authorization callback rejected the admin call") res,
        st1,
      )
      else if not (has_json_content_type e.string_util req.content_type)
      then (
        respond_admin_error 415 (codes "UNSUPPORTED_MEDIA_TYPE")
            (codes "/interrupt expects Content-Type: application/json") res,
        st1,
      )
      else interrupt_named (read_bounded_body (read_max_body_bytes e.db) [] req.chunks) res st1

  -- What `HandleCheckpoint` asks of the body and of the database; `none` is no answer yet.
  unfoldable pub checkpoint_body : HttpRequest → HttpResponse → Option HttpResponse
  unfolding has_json_content_type read_bounded_body read_max_body_bytes respond_admin_error
  checkpoint_body req res =
      let has_body =
        (not (is_empty req.content_length) && not (bytes_eq req.content_length (codes "0")))
        || not (is_empty req.content_type) in
      if has_body && not (has_json_content_type e.string_util req.content_type)
      then some (
          respond_admin_error 415 (codes "UNSUPPORTED_MEDIA_TYPE")
            (codes "/checkpoint expects Content-Type: application/json") res)
      else if has_body && not (is_some (read_bounded_body (read_max_body_bytes e.db) [] req.chunks))
      then some (
          respond_admin_error 413 (codes "PAYLOAD_TOO_LARGE")
            (codes "request body exceeds harbor_max_request_body_bytes") res)
      else if not (is_some e.db)
      then some (respond_admin_error 503 (codes "INTERNAL") (codes "database was closed") res)
      else none

  -- The gates of `HandleCheckpoint`: `none` lets the request through to the `CHECKPOINT`.
  unfoldable pub checkpoint_gates :
      HttpRequest → HttpResponse → HandlerState o → Option HttpResponse × HandlerState o
  unfolding authenticate is_authorized checkpoint_body
  checkpoint_gates req res st =
      let (authn, st1) = authenticate o e admin_session_id req st in
      if not authn.success
      then (some (respond_unauthorized authn res), st1)
      else if not (has_allowed_browser_origin_if_cookie e.auth req authn.source)
      then (
        some (
            respond_admin_error 403 (codes "FORBIDDEN")
              (codes "cookie-authenticated /checkpoint requires an allowed Origin or Referer") res),
        st1,
      )
      else if not (is_authorized o e admin_session_id authz_checkpoint_create)
      then (
        some (
            respond_admin_error 403 (codes "FORBIDDEN")
              (codes "authorization callback rejected the admin call") res),
        st1,
      )
      else (checkpoint_body req res, st1)
