-- ===== src/Examples/Access.antt =====
-- Requests that are let in or refused, and queries that are authorized or not.
use duckdb_flock.Base.{
  inr, starts_with, is_space, ◌≡◌, ◌↔◌, ◌⊎◌, refl, true, false, some, [], ◌∷◌, ◌++◌, codes,
  to_lower, bytes_eq,
}
use duckdb_flock.Duckdb.{cell_boolean, setting_bool_or, cell_of, evaluate_auth_query}
use duckdb_flock.Auth.Manager.{
  new_auth_manager, run_authorization, run_authentication, admin_prefix,
}
use duckdb_flock.Auth.Manager.Policy.{
  run_authorization_iff, admin_default_deny, allows_admin, authz_sql,
}
use duckdb_flock.Auth.Request.{Headers, authenticate_request, try_x_harbor, check_token}
use duckdb_flock.Auth.Request.Precedence.{
  Grounds, deciding, authenticate_request_sound, explicit_credential_decides,
}
use duckdb_flock.Auth.Text.{trim_ascii}
use duckdb_flock.Auth.Cors.{
  init_cors_config, resolve_cors_origin, add_origins, validate_cors_origin, find_separator,
  check_rest,
}
use duckdb_flock.Auth.Cors.Allowed.{IsOrigin, resolve_cors_origin_sound}
use duckdb_flock.Examples.Inputs.{
  toy_openssl, allowing, with_nop_authz, toy_string_util, toy_string_util-IsStringUtil, manager,
}
use duckdb_flock.Examples.Cookies.{full_keyring}

run_authorization_iff_example :
    (run_authorization toy_string_util manager (some allowing) [] (codes "SELECT 1") ≡ true) ↔ (
      (allowing.query (authz_sql manager) ([] ∷ codes "SELECT 1" ∷ []) ≡ cell_boolean true)
      × ((toy_string_util.starts_with (codes "SELECT 1") admin_prefix ≡ false)
          ⊎ (manager.has_custom_authz_fn ≡ true)
          ⊎ (allows_admin allowing ≡ true)))
run_authorization_iff_example =
    run_authorization_iff toy_string_util manager allowing [] (codes "SELECT 1")

admin_default_deny_example :
    run_authorization toy_string_util
      (new_auth_manager (some with_nop_authz) (codes "secret") false)
      (some allowing)
      []
      (admin_prefix ++ codes "stop")
    ≡ false
unfolding setting_bool_or bytes_eq to_lower
admin_default_deny_example =
    admin_default_deny toy_string_util toy_string_util-IsStringUtil with_nop_authz (codes "secret")
      false (codes "main.Harbor_NOP_authorization") (codes "main")
      (codes "Harbor_NOP_authorization") allowing [] (codes "stop") refl (inr refl) refl refl

abbrev with_token : Headers
with_token = record {
  authorization = [];
  x_harbor = codes " secret";
  cookies = codes "harbor_session=v1";
}

token_accepted :
    (authenticate_request toy_openssl manager
      (some allowing)
      []
      full_keyring
      0
      with_token).0.success
    ≡ true
unfolding authenticate_request try_x_harbor check_token run_authentication evaluate_auth_query
    cell_of trim_ascii new_auth_manager is_space
token_accepted = refl

authenticate_request_sound_example :
    Grounds toy_openssl manager
      (some allowing)
      []
      (authenticate_request toy_openssl manager (some allowing) [] full_keyring 0 with_token).1
      0
      with_token
      (authenticate_request toy_openssl manager (some allowing) [] full_keyring 0 with_token).0
authenticate_request_sound_example =
    authenticate_request_sound toy_openssl manager (some allowing) [] full_keyring 0 with_token
      token_accepted

explicit_credential_decides_example :
    authenticate_request toy_openssl manager (some allowing) [] full_keyring 0 with_token
    ≡ authenticate_request toy_openssl manager
        (some allowing)
        []
        full_keyring
        0
        (deciding with_token)
explicit_credential_decides_example =
    explicit_credential_decides toy_openssl manager (some allowing) [] full_keyring 0 with_token

origin_allowed :
    resolve_cors_origin
      (init_cors_config toy_string_util (codes " https://app.example ")).1
      (codes "https://app.example")
    ≡ some (codes "https://app.example")
unfolding resolve_cors_origin init_cors_config trim_ascii is_space bytes_eq add_origins
    validate_cors_origin find_separator starts_with check_rest
origin_allowed = refl

resolve_cors_origin_sound_example :
    (codes "https://app.example" ≡ codes "https://app.example")
    × IsOrigin (codes "https://app.example")
resolve_cors_origin_sound_example =
    resolve_cors_origin_sound toy_string_util (codes " https://app.example ")
      (codes "https://app.example") (codes "https://app.example") origin_allowed
