-- ===== src/Server/Serve.antt =====
-- src/harbor_lifecycle.cpp: `CALL harbor_serve(...)` up to the start of the server.
pub mod Credentials
use duckdb_flock.Base.{
  ℕ, zero, suc, ◌≡◌, Bool, true, false, not, ◌&&◌, ◌||◌, Option, none, some, List, [], ◌∷◌, ◌++◌,
  Bytes, codes, bytes_eq, is_empty, starts_with, Result, ok, err, ◌>>=◌, ◌>>◌, throw_if, or_throw,
  drop, length, ◌-◌, ◌==◌, if◌then◌else◌,
}
use duckdb_flock.Duckdb.{Database, get_setting_string}
use duckdb_flock.Auth.Text.{find}
use duckdb_flock.Auth.Cookie.Decimal.{to_decimal}
use duckdb_flock.Auth.Manager.{AuthError, validate_token}

pub data ServeError : Type 0 where
  bind_empty bind_with_port bind_null port_null bad_uri token_with_custom_authn token_empty
        token_too_short :
      ServeError

-- A named parameter: not given, given as NULL, or given with a value.
pub data Named (A : Type 0) : Type 0 where
  omitted null_given : Named A
  given : A → Named A

pub record ServeArguments : Type 0 where
  pub bind : Named Bytes
  pub port : Named ℕ
  pub token : Named Bytes

pub record HarborLifecycleBindData : Type 0 where
  pub listen_uri : Bytes
  pub token : Bytes
  pub unauthenticated : Bool

-- Code that is not part of the modelled sources: DuckDB's `Trim`, and the canonical text of a
-- `QuackUri`, `none` where its constructor throws.
pub record UriLibrary : Type 0 where
  pub trim : Bytes → Bytes
  pub quack_uri : Bytes → Option Bytes

unfoldable pub in_brackets : Bytes → Bool
in_brackets host =
    starts_with host (b'[' ∷ []) && bytes_eq (drop (length host - 1) host) (b']' ∷ [])

-- `HarborUriFromBindPort`; `Format` joins the parts.
unfoldable pub harbor_uri_from_bind_port : UriLibrary → Bytes → ℕ → Result ServeError Bytes
unfolding in_brackets
harbor_uri_from_bind_port u bind port =
    let host = u.trim bind in
    if is_empty host
    then err bind_empty
    else (if one_colon host && not (in_brackets host)
        then err bind_with_port
        else ok (codes "harbor:" ++ (bracketed host ++ (b':' ∷ to_decimal port))))
  where
    one_colon : Bytes → Bool
    one_colon host = elim (find b':' host) [
      | none ↦ false
      | some i ↦ elim (find b':' (drop (suc i) host)) [ none ↦ true | some _ ↦ false ]
    ]

    has_colon : Bytes → Bool
    has_colon host = elim (find b':' host) [ none ↦ false | some _ ↦ true ]

    bracketed : Bytes → Bytes
    bracketed host =
        if has_colon host && not (in_brackets host) then b'[' ∷ (host ++ (b']' ∷ [])) else host

-- `has_custom_authn_fn`; `none` is a context without a database.
unfoldable pub has_custom_authn_fn : Option Database → Bool
unfolding get_setting_string
has_custom_authn_fn none = false
has_custom_authn_fn (some db) =
    let primary = get_setting_string db (codes "harbor_authentication_function") in
    let quack_alias = get_setting_string db (codes "quack_authentication_function") in
    let fn = if is_empty primary then quack_alias else primary in
    not (is_empty fn)
    && not (bytes_eq fn (codes "harbor_check_token"))
    && not (bytes_eq fn (codes "quack_check_token"))

unfoldable pub bind_of : Named Bytes → Result ServeError Bytes
bind_of omitted = ok (codes "127.0.0.1")
bind_of null_given = err bind_null
bind_of (given b) = ok b

unfoldable pub port_of : Named ℕ → Result ServeError ℕ
port_of omitted = ok 9494
port_of null_given = err port_null
port_of (given p) = ok p

unfoldable pub checked : Bytes → Bytes → Result ServeError HarborLifecycleBindData
unfolding validate_token
checked uri token = elim (validate_token token) [
  | err _ ↦ err token_too_short
  | ok _ ↦ ok (record { listen_uri = uri; token = token; unauthenticated = false })
]

-- The token and the mode. The third argument is what `GenerateRandomToken` returns.
unfoldable pub credentials :
    Bool → Bytes → Bytes → Named Bytes → Result ServeError HarborLifecycleBindData
unfolding checked
credentials true uri generated omitted =
    ok (record { listen_uri = uri; token = []; unauthenticated = false })
credentials true uri generated _ = err token_with_custom_authn
credentials false uri generated omitted = checked uri generated
credentials false uri generated null_given =
    ok (record { listen_uri = uri; token = []; unauthenticated = true })
credentials false uri generated (given t) = if is_empty t then err token_empty else checked uri t

-- `HarborServeBind`.
unfoldable pub harbor_serve_bind :
    UriLibrary
    → Option Database
    → Bytes
    → ServeArguments
    → Result ServeError HarborLifecycleBindData
unfolding bind_of port_of harbor_uri_from_bind_port has_custom_authn_fn credentials
harbor_serve_bind u db generated args = do
  host ← bind_of args.bind
  port ← port_of args.port
  text ← harbor_uri_from_bind_port u host port
  uri ← or_throw (u.quack_uri text) bad_uri
  credentials (has_custom_authn_fn db) uri generated args.token
