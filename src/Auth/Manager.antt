-- ===== src/Auth/Manager.antt =====
-- src/harbor_auth.cpp: the manager's state, fixed when the server starts, and the callbacks.
pub mod Policy
use duckdb_flock.Base.{
  ℕ, Bool, true, false, not, ◌&&◌, ◌||◌, Option, none, some, List, [], ◌∷◌, ◌++◌, Bytes, codes,
  bytes_eq, is_empty, length, Result, ok, err, throw_if, ltb, if◌then◌else◌,
}
use duckdb_flock.Duckdb.{
  Database, StringUtil, get_setting_string, setting_bool_or, evaluate_auth_query,
}
use duckdb_flock.Auth.Text.{is_builtin_nop_authz}

pub record AuthManager : Type 0 where
  pub server_token : Bytes
  pub unauthenticated : Bool
  pub authn_fn_name : Bytes
  pub authz_fn_name : Bytes
  pub has_custom_authn_fn : Bool
  pub has_custom_authz_fn : Bool
  pub cors_allowed_origins : List Bytes

-- The primary setting, else its alias, else the default.
unfoldable pub resolve : Database → Bytes → Bytes → Bytes → Bytes
unfolding get_setting_string
resolve db primary quack_alias default_name =
    let v = get_setting_string db primary in
    let w = get_setting_string db quack_alias in
    if not (is_empty v) then v else if not (is_empty w) then w else default_name

-- The constructor. `none` is a database that is gone: the names stay empty.
unfoldable pub new_auth_manager : Option Database → Bytes → Bool → AuthManager
new_auth_manager none token unauthenticated = record {
  server_token = token;
  unauthenticated = unauthenticated;
  authn_fn_name = [];
  authz_fn_name = [];
  has_custom_authn_fn = false;
  has_custom_authz_fn = false;
  cors_allowed_origins = [];
}
new_auth_manager (some db) token unauthenticated = record {
  server_token = token;
  unauthenticated = unauthenticated;
  authn_fn_name = authn;
  authz_fn_name = authz;
  has_custom_authn_fn =
      not (bytes_eq authn (codes "harbor_check_token"))
      && not (bytes_eq authn (codes "quack_check_token"));
  has_custom_authz_fn = not (is_builtin_nop_authz authz);
  cors_allowed_origins = [];
}
  where
    authn : Bytes
    authn =
        resolve db (codes "harbor_authentication_function") (codes "quack_authentication_function")
          (codes "harbor_check_token")

    authz : Bytes
    authz =
        resolve db (codes "harbor_authorization_function") (codes "quack_authorization_function")
          (codes "harbor_nop_authorization")

pub data AuthError : Type 0 where
  token_too_short cors_wildcard cors_empty cors_no_scheme cors_has_path cors_bad_scheme : AuthError

unfoldable pub validate_token : Bytes → Result AuthError (Unit {0})
validate_token token = throw_if (ltb (length token) 4) token_too_short

-- `RunAuthentication` at the database that `db.lock()` gives.
unfoldable pub run_authentication : AuthManager → Option Database → Bytes → Bytes → Bool
unfolding evaluate_auth_query
run_authentication m db session_id client_token = if m.unauthenticated then true else elim db [
  | none ↦ false
  | some d ↦
      evaluate_auth_query d (codes "SELECT " ++ m.authn_fn_name ++ codes "(?, ?, ?)")
        (session_id ∷ client_token ∷ m.server_token ∷ [])
]

abbrev pub admin_prefix : Bytes
admin_prefix = codes "__HARBOR_ADMIN__:"

unfoldable pub run_authorization : StringUtil → AuthManager → Option Database → Bytes → Bytes → Bool
unfolding setting_bool_or evaluate_auth_query
run_authorization u m none session_id query = false
run_authorization u m (some d) session_id query =
    if u.starts_with query admin_prefix
      && not m.has_custom_authz_fn
      && not (setting_bool_or d (codes "harbor_allow_admin_without_authz") false)
    then false
    else evaluate_auth_query d (codes "SELECT " ++ m.authz_fn_name ++ codes "(?, ?)")
        (session_id ∷ query ∷ [])
