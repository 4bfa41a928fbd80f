-- ===== src/Http/Sql.antt =====
-- src/sql_handlers.cpp: the handlers of the session routes, and the answers of errors. The `catch` of
-- an exception is an `err`; `what` is the text that its `what()` gives.
pub mod Admission
pub mod Guarded
use duckdb_flock.Base.{
  ℕ, Bool, true, false, not, ◌&&◌, ◌||◌, Option, none, some, [], Bytes, codes, is_empty, Result, ok,
  err, ◌==◌, bytes_eq, if◌then◌else◌,
}
use duckdb_flock.Crypto.Openssl.{Openssl}
use duckdb_flock.Duckdb.{Database, StringUtil}
use duckdb_flock.Session.{
  SessionManager, SessionError, create_owned_session, destroy_owned_session, interrupt_session,
  user_cancel, is_some,
}
use duckdb_flock.Auth.Manager.{AuthManager, run_authorization}
use duckdb_flock.Auth.Request.{authenticate_request}
use duckdb_flock.Auth.Cookie.{
  AuthResult, Keyring, ErrorCode, no_error, missing_credential, invalid_token,
  unsupported_auth_scheme, missing_cookie, bad_cookie_format, bad_cookie_version, bad_cookie_sig,
  bad_cookie_payload, cookie_expired,
}
use duckdb_flock.Sql.JsonWriter.{
  JsonWriter, reset, take_text, begin_object, end_object, key_bool, key_string,
}
use duckdb_flock.Http.{
  HttpRequest, HttpResponse, json_response, apply_cors, find_text, extract_json_session_id,
  has_json_content_type, read_ubigint_setting, read_bounded_body, default_max_body_bytes,
}
use duckdb_flock.Http.Origin.{ListenUri, is_cookie, has_allowed_browser_origin}

-- What a request finds when it comes in: the manager, the database of `db.lock()`, the clocks, and
-- the texts of the exceptions of the session manager.
pub record Environment : Type 0 where
  pub string_util : StringUtil
  pub auth : AuthManager
  pub db : Option Database
  pub uri : ListenUri
  pub now : ℕ
  pub steady_now : ℕ
  pub what : SessionError → Bytes

-- What the handlers change.
pub record HandlerState (o : Openssl) : Type 0 where
  pub keyring : Keyring o
  pub sessions : SessionManager

abbrev contains : Bytes → Bytes → Bool
contains s pattern = is_some (find_text pattern s)

-- `ClassifyError`.
unfoldable pub classify_error : StringUtil → Bytes → Bytes
unfolding find_text
classify_error u message =
    let lower = u.lower message in
    if contains lower (codes "syntax error") || contains lower (codes "parser error")
    then codes "SQL_SYNTAX"
    else if contains lower (codes "table") && contains lower (codes "does not exist")
    then codes "TABLE_NOT_FOUND"
    else if contains lower (codes "column") && contains lower (codes "not found")
    then codes "TABLE_NOT_FOUND"
    else if contains lower (codes "type")
        && (contains lower (codes "mismatch") || contains lower (codes "conversion"))
    then codes "TYPE_ERROR"
    else if contains lower (codes "io error") || contains lower (codes "ioexception")
    then codes "IO_ERROR"
    else if contains lower (codes "session limit")
    then codes "SESSION_LIMIT"
    else codes "SQL_ERROR"

-- The texts of `AuthResult::error_code`.
unfoldable pub error_code_text : ErrorCode → Bytes
error_code_text no_error = []
error_code_text missing_credential = codes "MISSING_CREDENTIAL"
error_code_text invalid_token = codes "INVALID_TOKEN"
error_code_text unsupported_auth_scheme = codes "UNSUPPORTED_AUTH_SCHEME"
error_code_text missing_cookie = codes "MISSING_COOKIE"
error_code_text bad_cookie_format = codes "BAD_COOKIE_FORMAT"
error_code_text bad_cookie_version = codes "BAD_COOKIE_VERSION"
error_code_text bad_cookie_sig = codes "BAD_COOKIE_SIG"
error_code_text bad_cookie_payload = codes "BAD_COOKIE_PAYLOAD"
error_code_text cookie_expired = codes "COOKIE_EXPIRED"

-- `RespondError`.
unfoldable pub respond_error : ℕ → Bytes → Bytes → Bytes → HttpResponse → HttpResponse
unfolding json_response take_text end_object begin_object reset key_bool key_string
respond_error status error_code message session_id res =
    let w =
      key_string (codes "errorCode") error_code
        (key_string (codes "error") message (key_bool (codes "ok") false (begin_object reset))) in
    let named = if is_empty session_id then w else key_string (codes "sessionId") session_id w in
    json_response status (take_text (end_object named)).0 res

-- The answer `{"ok":true,"sessionId":...}`.
unfoldable pub respond_session : Bytes → HttpResponse → HttpResponse
unfolding json_response take_text end_object begin_object reset key_bool key_string
respond_session session_id res =
    json_response 200
      (take_text (
        end_object (
          key_string (codes "sessionId") session_id
            (key_bool (codes "ok") true (begin_object reset))))).0
      res

-- The error code that `AuthenticateForSql` answers with 401.
unfoldable pub unauthorized_code : AuthResult → Bytes
unfolding error_code_text
unauthorized_code result =
    let code = error_code_text result.error_code in
    if is_empty code then codes "UNAUTHORIZED" else code

abbrev pub sql_session_id : Bytes
sql_session_id = codes "__HARBOR_AUTH__:sql"

abbrev pub authz_create_session : Bytes
authz_create_session = codes "__HARBOR_ADMIN__:sessions:create"

abbrev pub authz_delete_session : Bytes
authz_delete_session = codes "__HARBOR_ADMIN__:sessions:delete"

abbrev pub authz_cancel_session : Bytes
authz_cancel_session = codes "__HARBOR_ADMIN__:sessions:cancel"

module _ (o : Openssl) (e : Environment) where
  -- The authentication of a request, and what it leaves of the key ring.
  unfoldable pub authenticate : Bytes → HttpRequest → HandlerState o → AuthResult × HandlerState o
  unfolding authenticate_request
  authenticate session_id req st =
      let (authn, k) =
        authenticate_request o e.auth e.db session_id st.keyring e.now req.credentials in
      (authn, record st { keyring = k })

  unfoldable pub is_authorized : Bytes → Bytes → Bool
  is_authorized session_id query = run_authorization e.string_util e.auth e.db session_id query

  -- The `catch` of `HandleSessionNew`.
  unfoldable pub refuse_session : Bytes → HttpResponse → HttpResponse
  unfolding classify_error
  refuse_session message res =
      let code = classify_error e.string_util message in
      respond_error (if bytes_eq code (codes "SESSION_LIMIT") then 429 else 500) code message [] res

  -- Its `try`, at what `CreateOwnedSession` gives.
  unfoldable pub answer_session :
      Bytes
      → HttpResponse
      → HandlerState o
      → Result SessionError SessionManager
      → HttpResponse × HandlerState o
  unfolding refuse_session
  answer_session sid res st (ok sessions) =
      (respond_session sid res, record st { sessions = sessions })
  answer_session sid res st (err x) = (refuse_session (e.what x) res, st)

  -- `generated` is what `GenerateSessionId` returns or throws.
  unfoldable pub try_new_session :
      Result Bytes Bytes → Bytes → HttpResponse → HandlerState o → HttpResponse × HandlerState o
  unfolding answer_session create_owned_session
  try_new_session (err message) principal res st = (refuse_session message res, st)
  try_new_session (ok sid) principal res st =
      answer_session sid res st (create_owned_session st.sessions e.db e.steady_now sid principal)

  unfoldable pub handle_session_new :
      Result Bytes Bytes
      → HttpRequest
      → HttpResponse
      → HandlerState o
      → HttpResponse × HandlerState o
  unfolding authenticate is_authorized try_new_session
  handle_session_new generated req res st =
      let cors = apply_cors e.auth req res in
      let (authn, st1) = authenticate sql_session_id req st in
      if not authn.success
      then (
        respond_error 401 (unauthorized_code authn) (codes "authentication failed") [] cors,
        st1,
      )
      else if not (is_authorized sql_session_id authz_create_session)
      then (
        respond_error 403 (codes "FORBIDDEN")
            (codes "authorization callback rejected session creation") [] cors,
        st1,
      )
      else try_new_session generated authn.principal_id cors st1

  -- The part of `HandleSessionDelete` behind its gates.
  unfoldable pub delete_session :
      Bytes → Bytes → HttpResponse → HandlerState o → HttpResponse × HandlerState o
  unfolding destroy_owned_session
  delete_session sid principal res st =
      let (destroyed, sessions) = destroy_owned_session st.sessions sid principal in
      if is_empty sid
      then (
        respond_error 404 (codes "SESSION_NOT_FOUND") (codes "missing session id in path") [] res,
        st,
      )
      else if not destroyed
      then (
        respond_error 404 (codes "SESSION_NOT_FOUND") (codes "no such session for this principal")
            sid res,
        record st { sessions = sessions },
      )
      else (respond_session sid res, record st { sessions = sessions })

  unfoldable pub handle_session_delete :
      HttpRequest → HttpResponse → HandlerState o → HttpResponse × HandlerState o
  unfolding authenticate is_authorized delete_session
  handle_session_delete req res st =
      let cors = apply_cors e.auth req res in
      let (authn, st1) = authenticate sql_session_id req st in
      if not authn.success
      then (
        respond_error 401 (unauthorized_code authn) (codes "authentication failed") [] cors,
        st1,
      )
      else if not (is_authorized sql_session_id authz_delete_session)
      then (
        respond_error 403 (codes "FORBIDDEN")
            (codes "authorization callback rejected session deletion") [] cors,
        st1,
      )
      else delete_session req.match authn.principal_id cors st1

  -- The part of `HandleSqlCancel` behind the limit on the body.
  unfoldable pub cancel_session :
      Option Bytes → HttpResponse → HandlerState o → HttpResponse × HandlerState o
  unfolding interrupt_session extract_json_session_id
  cancel_session none res st = (
    respond_error 413 (codes "PAYLOAD_TOO_LARGE")
        (codes "request body exceeds harbor_max_request_body_bytes") [] res,
    st,
  )
  cancel_session (some body) res st =
      let sid = extract_json_session_id body in
      let (found, sessions) = interrupt_session st.sessions sid user_cancel in
      if is_empty sid
      then (
        respond_error 400 (codes "BAD_REQUEST")
            (codes "expected JSON body with a non-empty 'sessionId' field") [] res,
        st,
      )
      else if not found
      then (
        respond_error 404 (codes "SESSION_NOT_FOUND") (codes "no session with the given id") [] res,
        record st { sessions = sessions },
      )
      else (respond_session sid res, record st { sessions = sessions })

  unfoldable pub handle_sql_cancel :
      HttpRequest → HttpResponse → HandlerState o → HttpResponse × HandlerState o
  unfolding authenticate is_authorized cancel_session
  handle_sql_cancel req res st =
      let cors = apply_cors e.auth req res in
      let (authn, st1) = authenticate sql_session_id req st in
      let limit =
        read_ubigint_setting e.db (codes "harbor_max_request_body_bytes") default_max_body_bytes in
      if not authn.success
      then (
        respond_error 401 (unauthorized_code authn) (codes "authentication failed") [] cors,
        st1,
      )
      else if is_cookie authn.source && not (has_allowed_browser_origin e.uri e.auth req)
      then (
        respond_error 403 (codes "FORBIDDEN")
            (codes "cookie-authenticated /sql/cancel requires an allowed Origin or Referer") []
            cors,
        st1,
      )
      else if not (is_authorized sql_session_id authz_cancel_session)
      then (
        respond_error 403 (codes "FORBIDDEN")
            (codes "authorization callback rejected the admin call") [] cors,
        st1,
      )
      else if not (has_json_content_type e.string_util req.content_type)
      then (
        respond_error 415 (codes "UNSUPPORTED_MEDIA_TYPE")
            (codes "/sql/cancel expects Content-Type: application/json") [] cors,
        st1,
      )
      else cancel_session (read_bounded_body limit [] req.chunks) cors st1
