-- ===== src/Http/Sql/Admission.antt =====
-- src/sql_handlers.cpp: `HandleSql` up to the statement that it prepares. A refusal names its reason,
-- which fixes the status and the code of the answer.
pub mod Sound
pub mod Complete
use duckdb_flock.Base.{
  ℕ, Bool, true, false, not, ◌&&◌, ◌||◌, Option, none, some, List, [], ◌∷◌, Bytes, codes, is_empty,
  Result, ok, err, ◌>>=◌, ◌>>◌, throw_if, or_throw, if◌then◌else◌,
}
use duckdb_flock.Crypto.Openssl.{Openssl}
use duckdb_flock.Duckdb.{Database, StringUtil}
use duckdb_flock.Session.{SessionManager, lookup_owned_session, is_some}
use duckdb_flock.Auth.Cookie.{AuthResult}
use duckdb_flock.Auth.Manager.{admin_prefix}
use duckdb_flock.Sql.Params.Tokens.{ParamError}
use duckdb_flock.Sql.Params.Request.{ParsedRequest, parse_request}
use duckdb_flock.Http.{
  HttpRequest, is_json_content_type, read_ubigint_setting, read_bounded_body,
  default_max_body_bytes,
}
use duckdb_flock.Http.Origin.{is_cookie, has_allowed_browser_origin}
use duckdb_flock.Http.Sql.{Environment, HandlerState, authenticate, is_authorized, sql_session_id}

-- DuckDB's parser: the statements of a text, or the text of the exception.
pub record Parser : Type 1 where
  pub Statement : Type 0
  pub extract_statements : Bytes → Result Bytes (List Statement)

pub data Reason : Type 0 where
  not_json body_too_large reserved_prefix : Reason
  malformed : ParamError → Reason
  unauthenticated : AuthResult → Reason
  foreign_origin no_such_session session_busy database_closed not_authorized : Reason
  bad_syntax : Bytes → Reason
  no_statements many_statements ephemeral_transaction : Reason

unfoldable pub status_of : Reason → ℕ
status_of not_json = 415
status_of body_too_large = 413
status_of reserved_prefix = 400
status_of (malformed x) = 400
status_of (unauthenticated r) = 401
status_of foreign_origin = 403
status_of no_such_session = 404
status_of session_busy = 409
status_of database_closed = 503
status_of not_authorized = 403
status_of (bad_syntax t) = 400
status_of no_statements = 400
status_of many_statements = 400
status_of ephemeral_transaction = 400

abbrev pub map_err : {E F : Type 0} {A : Type 0} → (E → F) → Result E A → Result F A
map_err f (ok a) = ok a
map_err f (err x) = err (f x)

-- The body's `sessionId`, else the header's.
unfoldable pub with_header_session : HttpRequest → ParsedRequest → ParsedRequest
with_header_session req parsed =
    if is_empty parsed.session_id && not (is_empty req.x_harbor_session_id)
    then record parsed { session_id = req.x_harbor_session_id }
    else parsed

-- Up to the authentication.
unfoldable pub read_request :
    StringUtil → Option Database → HttpRequest → Result Reason ParsedRequest
read_request u db req = do
  throw_if (not (is_json_content_type u req.content_type)) not_json
  body ←
      or_throw
        (read_bounded_body
          (read_ubigint_setting db (codes "harbor_max_request_body_bytes") default_max_body_bytes)
          [] req.chunks)
        body_too_large
  parsed ← map_err malformed (parse_request body)
  throw_if (u.starts_with (u.trim parsed.sql) admin_prefix) reserved_prefix
  ok (with_header_session req parsed)

-- `ResolveSession` and the try-lock of the session's mutex, which `busy` says of a session. `none` is
-- an ephemeral session.
unfoldable pub resolve_session :
    SessionManager → (ℕ → Bool) → Bytes → Bytes → Result Reason (Option ℕ)
unfolding lookup_owned_session
resolve_session sessions busy session_id principal_id =
    if is_empty session_id
    then ok none
    else elim (lookup_owned_session sessions session_id principal_id) [
      | none ↦ err no_such_session
      | some r ↦ if busy r then err session_busy else ok (some r)
    ]

unfoldable pub single_statement : {A : Type 0} → List A → Result Reason A
single_statement [] = err no_statements
single_statement (s ∷ []) = ok s
single_statement (s ∷ t ∷ ss) = err many_statements

-- `BEGIN` and `START TRANSACTION` in the text, for the ephemeral case.
unfoldable pub begins_transaction : StringUtil → Bytes → Bool
begins_transaction u sql =
    let upper = u.upper (u.trim sql) in
    u.starts_with upper (codes "BEGIN") || u.starts_with upper (codes "START TRANSACTION")

-- What the rest of `HandleSql` runs: a statement, in a session or in an ephemeral connection.
pub record Admitted (p : Parser) : Type 0 where
  pub request : ParsedRequest
  pub principal_id : Bytes
  pub session : Option ℕ
  pub statement : p.Statement

module _ (o : Openssl) (e : Environment) (p : Parser) where
  -- From the authentication on.
  unfoldable pub admit :
      HttpRequest
      → ParsedRequest
      → (ℕ → Bool)
      → AuthResult
      → SessionManager
      → Result Reason (Admitted p)
  unfolding is_authorized
  admit req parsed busy authn sessions = do
    throw_if (not authn.success) (unauthenticated authn)
    throw_if (is_cookie authn.source && not (has_allowed_browser_origin e.uri e.auth req))
        foreign_origin
    session ← resolve_session sessions busy parsed.session_id authn.principal_id
    throw_if (not (is_some e.db)) database_closed
    throw_if
        (not (
          is_authorized o e
            (if is_empty parsed.session_id then sql_session_id else parsed.session_id) parsed.sql))
        not_authorized
    statements ← map_err bad_syntax (p.extract_statements parsed.sql)
    statement ← single_statement statements
    throw_if (not (is_some session) && begins_transaction e.string_util parsed.sql)
        ephemeral_transaction
    ok (record {
      request = parsed;
      principal_id = authn.principal_id;
      session = session;
      statement = statement;
    })

  -- What comes of the body that was read.
  unfoldable pub handle_parsed :
      HttpRequest
      → (ℕ → Bool)
      → HandlerState o
      → Result Reason ParsedRequest
      → Result Reason (Admitted p) × HandlerState o
  unfolding authenticate admit
  handle_parsed req busy st (err r) = (err r, st)
  handle_parsed req busy st (ok parsed) =
      let (authn, st1) = authenticate o e sql_session_id req st in
      (admit req parsed busy authn st1.sessions, st1)

  unfoldable pub handle_sql :
      HttpRequest → (ℕ → Bool) → HandlerState o → Result Reason (Admitted p) × HandlerState o
  unfolding read_request handle_parsed
  handle_sql req busy st = handle_parsed req busy st (read_request e.string_util e.db req)
