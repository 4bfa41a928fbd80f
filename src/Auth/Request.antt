-- ===== src/Auth/Request.antt =====
-- src/harbor_auth.cpp: `AuthenticateRequest`.
pub mod Precedence
use duckdb_flock.Base.{
  ℕ, Bool, true, false, not, Option, none, some, List, [], ◌∷◌, Bytes, codes, is_empty, starts_with,
  drop, if◌then◌else◌,
}
use duckdb_flock.Duckdb.{Database}
use duckdb_flock.Crypto.Openssl.{Openssl, principal_id_hex}
use duckdb_flock.Auth.Text.{trim_ascii, extract_cookie}
use duckdb_flock.Auth.Manager.{AuthManager, run_authentication}
use duckdb_flock.Auth.Cookie.{
  AuthResult, AuthSource, bearer, x_harbor_token, local_dev, refused, accepted, missing_credential,
  invalid_token, unsupported_auth_scheme, Keyring, verify_cookie,
}

-- The headers that are read; a missing header is the empty text.
pub record Headers : Type 0 where
  pub authorization : Bytes
  pub x_harbor : Bytes
  pub cookies : Bytes

abbrev pub local_dev_principal_id : Bytes
local_dev_principal_id = codes "harbor.local-dev"

abbrev pub bearer_prefix : Bytes
bearer_prefix = codes "Bearer "

module _ (o : Openssl) (m : AuthManager) (db : Option Database) (session_id : Bytes) where
  -- The end of `try_explicit_token`, at the token with the scheme taken off.
  unfoldable pub check_token : AuthSource → Bytes → AuthResult
  check_token source token =
      if is_empty token
      then record (refused missing_credential) { source = source }
      else if not (run_authentication m db session_id token)
      then record (refused invalid_token) { source = source }
      else accepted (principal_id_hex o token) source

  unfoldable pub try_bearer : Bytes → AuthResult
  try_bearer raw =
      if not (starts_with raw bearer_prefix)
      then record (refused unsupported_auth_scheme) { source = bearer }
      else check_token bearer (trim_ascii (drop 7 raw))

  unfoldable pub try_x_harbor : Bytes → AuthResult
  try_x_harbor raw = check_token x_harbor_token (trim_ascii raw)

  -- The `Cookie` header, where no explicit credential was sent.
  unfoldable pub try_cookie : Keyring o → ℕ → Bytes → AuthResult × Keyring o
  try_cookie k now header =
      let value = extract_cookie header (codes "harbor_session") in
      if is_empty header
      then (refused missing_credential, k)
      else if is_empty value
      then (refused missing_credential, k)
      else verify_cookie o k now value

  unfoldable pub authenticate_request : Keyring o → ℕ → Headers → AuthResult × Keyring o
  authenticate_request k now h =
      if m.unauthenticated
      then (accepted local_dev_principal_id local_dev, k)
      else if not (is_empty h.authorization)
      then (try_bearer h.authorization, k)
      else if not (is_empty h.x_harbor)
      then (try_x_harbor h.x_harbor, k)
      else try_cookie k now h.cookies
