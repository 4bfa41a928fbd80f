-- ===== src/Http.antt =====
-- What the handlers of src/sql_handlers.cpp, src/admin_handlers.cpp and src/auth_handlers.cpp share:
-- requests and responses of httplib, the limit on a body, CORS, and their searches in texts.
pub mod Escape
pub mod Origin
pub mod Sql
pub mod Admin
pub mod Auth
pub mod Quack
pub mod Routes
pub mod Stream
use duckdb_flock.Base.{
  ℕ, suc, ◌+◌, Bool, true, false, not, ◌&&◌, ◌||◌, Option, none, some, List, [], ◌∷◌, ◌++◌, Bytes,
  codes, is_empty, bytes_eq, starts_with, is_space, drop, length, Result, ok, err, ◌>>=◌, ltb, ◌==◌,
  if◌then◌else◌, String,
}
use duckdb_flock.Duckdb.{Database, StringUtil, null}
use duckdb_flock.Auth.Manager.{AuthManager}
use duckdb_flock.Auth.Request.{Headers}
use duckdb_flock.Auth.Cors.{resolve_cors_origin}
use duckdb_flock.Sql.JsonWriter.Escaping.{encode_all}
use duckdb_flock.Auth.Text.{trim_ascii}

-- A literal with characters beyond ASCII, as the bytes of the source.
abbrev pub utf8 : String → Bytes
utf8 literal = encode_all (codes literal)

-- The parts of a request that are read; a missing header or parameter is the empty text. `chunks` is
-- what the content reader hands over, piece by piece.
pub record HttpRequest : Type 0 where
  pub credentials : Headers
  pub content_type : Bytes
  pub content_length : Bytes
  pub origin : Bytes
  pub referer : Bytes
  pub x_harbor_session_id : Bytes
  pub x_forwarded_proto : Bytes
  pub destroy_sessions : Bytes
  pub match : Bytes
  pub body : Bytes
  pub chunks : List Bytes

pub record HttpResponse : Type 0 where
  pub status : ℕ
  pub headers : List (Bytes × Bytes)
  pub content : Bytes
  pub content_type : Bytes

-- `res.set_header(name, value)`.
unfoldable pub set_header : Bytes → Bytes → HttpResponse → HttpResponse
set_header name value res = record res { headers = res.headers ++ (name, value) ∷ [] }

-- `res.status = status; res.set_content(content, "application/json")`.
unfoldable pub json_response : ℕ → Bytes → HttpResponse → HttpResponse
json_response status content res = record res {
  status = status;
  content = content;
  content_type = codes "application/json";
}

-- `ApplyCors` and `ApplyCorsHeaders`.
unfoldable pub apply_cors : AuthManager → HttpRequest → HttpResponse → HttpResponse
unfolding set_header resolve_cors_origin
apply_cors m req res = elim (resolve_cors_origin m.cors_allowed_origins req.origin) [
  | none ↦ res
  | some origin ↦ set_header (codes "Vary") (codes "Origin") (
      set_header (codes "Access-Control-Allow-Credentials") (codes "true")
        (set_header (codes "Access-Control-Allow-Origin") origin res))
]

abbrev pub default_max_body_bytes : ℕ
default_max_body_bytes = 268435456

-- `ReadUbigintSetting` at what `db.lock()` gives.
unfoldable pub read_ubigint_setting : Option Database → Bytes → ℕ → ℕ
read_ubigint_setting none name fallback = fallback
read_ubigint_setting (some db) name fallback = elim (db.try_get_current_setting name) [
  | none ↦ fallback
  | some null ↦ fallback
  | some v ↦ elim (db.get_uint64 v) [ none ↦ fallback | some n ↦ n ]
]

-- `ReadMaxBodyBytes`: here 0 means the default.
unfoldable pub read_max_body_bytes : Option Database → ℕ
unfolding read_ubigint_setting
read_max_body_bytes db =
    let n =
      read_ubigint_setting db (codes "harbor_max_request_body_bytes") default_max_body_bytes in
    if n == 0 then default_max_body_bytes else n

-- The calls of the receiver that is handed to the content reader: `none` is `too_big`. What comes
-- after the first piece that does not fit is not kept.
unfoldable pub read_bounded_body : ℕ → Bytes → List Bytes → Option Bytes
read_bounded_body max_body body [] = some body
read_bounded_body max_body body (piece ∷ chunks) =
    let more = read_bounded_body max_body (body ++ piece) chunks in
    if ltb max_body (length body + length piece) then none else more

-- `s.find(pattern)`, as the text from there on.
unfoldable pub find_text : Bytes → Bytes → Option Bytes
find_text pattern [] = if is_empty pattern then some [] else none
find_text pattern (c ∷ s) =
    let later = find_text pattern s in if starts_with (c ∷ s) pattern then some (c ∷ s) else later

-- The text in front of the first `c`; `none` if there is none.
unfoldable pub before : ℕ → Bytes → Option Bytes
before c [] = none
before c (d ∷ s) =
    let rest = before c s in
    if d == c then some [] else elim rest [ none ↦ none | some t ↦ some (d ∷ t) ]

abbrev pub or_else {ℓ} : {A : Type ℓ} → Option A → A → A
or_else none d = d
or_else (some a) d = a

abbrev pub and_then {ℓ κ} : {A : Type ℓ} {B : Type κ} → Option A → (A → Option B) → Option B
and_then none f = none
and_then (some a) f = f a

-- `ExtractJsonSessionId`, which `HandleSqlCancel` spells out too: the text between the two quotes
-- behind the first colon behind the first `"sessionId"`, or the empty text.
unfoldable pub extract_json_session_id : Bytes → Bytes
unfolding find_text before
extract_json_session_id body =
    or_else
      (and_then (find_text (codes "\"sessionId\"") body) (λ key.
        and_then (find_text (b':' ∷ []) key)
          (λ colon. and_then (find_text (b'"' ∷ []) colon) (λ quote. before b'"' (drop 1 quote)))))
      []

-- `HasJsonContentType`, which `HandleSqlCancel` spells out too.
unfoldable pub has_json_content_type : StringUtil → Bytes → Bool
unfolding trim_ascii
has_json_content_type u content_type =
    let lower = trim_ascii (u.lower content_type) in
    bytes_eq lower (codes "application/json") || u.starts_with lower (codes "application/json;")

-- `IsJsonContentType`, the test of `HandleSql`.
unfoldable pub is_json_content_type : StringUtil → Bytes → Bool
is_json_content_type u content_type =
    let lower = u.lower content_type in
    not (is_empty content_type)
    && (bytes_eq lower (codes "application/json")
        || u.starts_with lower (codes "application/json;"))
