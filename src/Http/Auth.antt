-- ===== src/Http/Auth.antt =====
-- src/auth_handlers.cpp: login, logout and the CORS preflight.
pub mod Login
use duckdb_flock.Base.{
  ℕ, suc, ◌+◌, Bool, true, false, not, ◌&&◌, ◌||◌, Option, none, some, List, [], ◌∷◌, ◌++◌, Bytes,
  codes, is_empty, bytes_eq, starts_with, drop, length, Result, ok, err, ltb, ◌==◌, if◌then◌else◌,
}
use duckdb_flock.Crypto.Base64Url.{CryptoError}
use duckdb_flock.Crypto.Hex.{principal_abbrev}
use duckdb_flock.Crypto.Openssl.{Openssl, principal_id_hex}
use duckdb_flock.Duckdb.{Database, StringUtil}
use duckdb_flock.Session.{destroy_all_owned_by}
use duckdb_flock.Auth.Manager.{AuthManager, run_authentication}
use duckdb_flock.Auth.Cookie.{Keyring, issue_cookie}
use duckdb_flock.Auth.Cookie.Decimal.{to_decimal}
use duckdb_flock.Auth.Cors.{resolve_cors_origin, has}
use duckdb_flock.Auth.Request.{bearer_prefix}
use duckdb_flock.Http.{
  HttpRequest, HttpResponse, utf8, set_header, json_response, apply_cors, read_ubigint_setting,
  find_text, before, or_else, and_then,
}
use duckdb_flock.Http.Escape.{escape_json_string}
use duckdb_flock.Http.Sql.{Environment, HandlerState, authenticate}

abbrev pub login_session_id : Bytes
login_session_id = codes "__HARBOR_AUTH__:login"

abbrev pub cookie_name : Bytes
cookie_name = codes "harbor_session"

abbrev pub default_cookie_ttl_sec : ℕ
default_cookie_ttl_sec = 43200

abbrev pub cookie_max_age_cap : ℕ
cookie_max_age_cap = 315576000

abbrev pub max_login_body_bytes : ℕ
max_login_body_bytes = 4096

-- `WriteJsonError`.
unfoldable pub write_json_error : ℕ → Bytes → Bytes → HttpResponse → HttpResponse
unfolding json_response escape_json_string
write_json_error status error_code message res =
    json_response status
      (codes "{\"error\":\""
        ++ (escape_json_string error_code
            ++ (codes "\",\"message\":\"" ++ (escape_json_string message ++ codes "\"}"))))
      res

-- `ExtractTokenFromBody`; `none` is the empty string of a malformed body.
unfoldable pub extract_token_from_body : Bytes → Bytes
unfolding find_text before has
extract_token_from_body body =
    let value =
      or_else
        (and_then (find_text (codes "\"token\"") body) (λ key.
          and_then (find_text (b':' ∷ []) (drop 7 key)) (λ colon.
            and_then (find_text (b'"' ∷ []) (drop 1 colon)) (λ quote. before b'"' (drop 1 quote)))))
        [] in
    if has 92 value then [] else value

-- `CookieTtlSec` at what `db.lock()` gives.
unfoldable pub cookie_ttl_sec : Option Database → ℕ
unfolding read_ubigint_setting
cookie_ttl_sec db =
    let v = read_ubigint_setting db (codes "harbor_auth_cookie_ttl_s") default_cookie_ttl_sec in
    if v == 0
    then default_cookie_ttl_sec
    else if ltb cookie_max_age_cap v
    then cookie_max_age_cap
    else v

-- `RequestIsBehindHttps`.
unfoldable pub request_is_behind_https : StringUtil → HttpRequest → Bool
request_is_behind_https u req =
    (not (is_empty req.x_forwarded_proto)
      && bytes_eq (u.lower req.x_forwarded_proto) (codes "https"))
    || (not (is_empty req.origin) && starts_with req.origin (codes "https://"))

-- The answer that refuses a login.
pub record Refusal : Type 0 where
  pub status : ℕ
  pub error_code : Bytes
  pub message : Bytes

-- The token of a login, or the refusal.
unfoldable pub login_token : StringUtil → HttpRequest → Result Refusal Bytes
unfolding extract_token_from_body
login_token u req =
    let h = req.credentials in
    if not (is_empty h.authorization)
    then (if ltb (length h.authorization) 7 || not (starts_with h.authorization bearer_prefix)
        then err (record {
          status = 401;
          error_code = codes "UNSUPPORTED_AUTH_SCHEME";
          message = utf8 "unsupported Authorization scheme — only Bearer is accepted";
        })
        else ok (u.trim (drop 7 h.authorization)))
    else if not (is_empty h.x_harbor)
    then ok (u.trim h.x_harbor)
    else if not (is_empty req.body)
    then (if ltb max_login_body_bytes (length req.body)
        then err (record {
          status = 413;
          error_code = codes "BODY_TOO_LARGE";
          message = codes "request body exceeds the /auth/login limit";
        })
        else ok (extract_token_from_body req.body))
    else ok []

-- The value of `Set-Cookie` of a login.
unfoldable pub login_cookie : Bytes → ℕ → Bool → Bytes
login_cookie value ttl_s secure =
    cookie_name
    ++ (b'='
        ∷ (value
            ++ (codes "; HttpOnly; SameSite=Strict; Path=/; Max-Age="
                ++ (to_decimal ttl_s ++ (if secure then codes "; Secure" else [])))))

unfoldable pub logout_cookie : Bool → Bytes
logout_cookie secure =
    cookie_name
    ++ (codes "=; HttpOnly; SameSite=Strict; Path=/; Max-Age=0"
        ++ (if secure then codes "; Secure" else []))

module _ (o : Openssl) (e : Environment) where
  -- The end of `HandleLogin`, at what `IssueCookie` gave; `none` is an exception that leaves the
  -- handler. `iso_utc` is `IsoUtcFromUnix`, which the C library computes.
  unfoldable pub answer_login :
      (ℕ → Bytes)
      → Bytes
      → HttpRequest
      → HttpResponse
      → HandlerState o
      → Option (Result CryptoError Bytes × Keyring o)
      → Option HttpResponse × HandlerState o
  unfolding login_cookie request_is_behind_https json_response set_header escape_json_string
      principal_abbrev
  answer_login iso_utc principal_hex req res st none = (none, st)
  answer_login iso_utc principal_hex req res st (some (err x, k)) =
      (none, record st { keyring = k })
  answer_login iso_utc principal_hex req res st (some (ok value, k)) =
      let ttl_s = cookie_ttl_sec e.db in
      let body =
        codes "{\"principal\":\""
        ++ (escape_json_string (principal_abbrev principal_hex)
            ++ (codes "\",\"expires_at\":\""
                ++ (escape_json_string (iso_utc (e.now + ttl_s)) ++ codes "\"}"))) in
      let set = login_cookie value ttl_s (request_is_behind_https e.string_util req) in
      (
        some (json_response 200 body (set_header (codes "Set-Cookie") set res)),
        record st { keyring = k },
      )

  -- `HandleLogin` with the token that was found.
  unfoldable pub login_with :
      (ℕ → Bytes)
      → HttpRequest
      → HttpResponse
      → HandlerState o
      → Result Refusal Bytes
      → Option HttpResponse × HandlerState o
  unfolding answer_login issue_cookie cookie_ttl_sec write_json_error run_authentication
      principal_id_hex
  login_with iso_utc req res st (err r) =
      (some (write_json_error r.status r.error_code r.message res), st)
  login_with iso_utc req res st (ok token) =
      let principal_hex = principal_id_hex o token in
      if is_empty token
      then (
        some (
            write_json_error 400 (codes "MISSING_CREDENTIAL")
              (codes
                "/auth/login requires Authorization, X-Harbor-Token, or {\"token\":\"...\"} body")
              res),
        st,
      )
      else if not (run_authentication e.auth e.db login_session_id token)
      then (
        some (write_json_error 401 (codes "INVALID_TOKEN") (codes "authentication failed") res),
        st,
      )
      else answer_login iso_utc principal_hex req res st
          (issue_cookie o st.keyring e.now principal_hex (cookie_ttl_sec e.db))

  unfoldable pub handle_login :
      (ℕ → Bytes)
      → HttpRequest
      → HttpResponse
      → HandlerState o
      → Option HttpResponse × HandlerState o
  unfolding login_token login_with
  handle_login iso_utc req res st =
      let cors = apply_cors e.auth req res in
      login_with iso_utc req cors st (login_token e.string_util req)

  -- The sessions that a logout destroys: all of the caller's, if it asks for that and is known.
  unfoldable pub destroy_on_logout : HttpRequest → HandlerState o → ℕ × HandlerState o
  unfolding authenticate destroy_all_owned_by
  destroy_on_logout req st =
      let asked =
        bytes_eq (e.string_util.lower req.destroy_sessions) (codes "true")
        || bytes_eq req.destroy_sessions (codes "1") in
      let (authn, st1) = authenticate o e login_session_id req st in
      let (destroyed, sessions) = destroy_all_owned_by st1.sessions authn.principal_id in
      if asked
      then (if authn.success && not (is_empty authn.principal_id)
          then (destroyed, record st1 { sessions = sessions })
          else (0, st1))
      else (0, st)

  unfoldable pub handle_logout :
      HttpRequest → HttpResponse → HandlerState o → HttpResponse × HandlerState o
  unfolding destroy_on_logout logout_cookie request_is_behind_https json_response set_header
  handle_logout req res st =
      let cleared =
        set_header (codes "Set-Cookie") (logout_cookie (request_is_behind_https e.string_util req))
          (apply_cors e.auth req res) in
      let (destroyed, st1) = destroy_on_logout req st in
      let body =
        if ltb 0 destroyed
        then codes "{\"ok\":true,\"destroyedSessions\":" ++ (to_decimal destroyed ++ codes "}")
        else codes "{\"ok\":true}" in
      (json_response 200 body cleared, st1)

-- `HandlePreflight`.
unfoldable pub handle_preflight : AuthManager → HttpRequest → HttpResponse → HttpResponse
unfolding set_header resolve_cors_origin
handle_preflight m req res = elim (resolve_cors_origin m.cors_allowed_origins req.origin) [
  | none ↦ record res { status = 204 }
  | some origin ↦
      let allowed =
        set_header (codes "Access-Control-Allow-Methods") (codes "GET, POST, DELETE, OPTIONS") (
          set_header (codes "Access-Control-Allow-Credentials") (codes "true")
            (set_header (codes "Access-Control-Allow-Origin") origin res)) in
      let described =
        set_header (codes "Access-Control-Allow-Headers")
          (codes "Authorization, Content-Type, X-Harbor-Token, X-Harbor-Session-Id, Accept")
          allowed in
      record (set_header (codes "Vary") (codes "Origin")
        (set_header (codes "Access-Control-Max-Age") (codes "600") described)) { status = 204 }
]
