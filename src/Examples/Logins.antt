-- ===== src/Examples/Logins.antt =====
-- A login, and a request with its cookie.
use duckdb_flock.Base.{
  ◌<◌, ap, ◌∙◌, is_space, ℕ, ◌+◌, ◌%◌, ◌^◌, ◌≡◌, refl, true, false, [], ◌∷◌, ◌++◌, Bytes, codes, ok,
  arith, some, none, replicate, bytes_eq,
}
use duckdb_flock.Crypto.Hex.{
  bytes_to_hex, hex_char, is_valid_principal_hex, is_lower_hex, principal_abbrev,
}
use duckdb_flock.Crypto.Base64Url.{base64_url_encode, b64_char}
use duckdb_flock.Auth.Cookie.Decimal.{to_decimal}
use duckdb_flock.Crypto.Openssl.{
  principal_id_hex, sha256_hex, random_bytes, hmac_sha256, hmac_sha256_b64_url,
}
use duckdb_flock.Duckdb.{evaluate_auth_query, cell_of}
use duckdb_flock.Auth.Text.{extract_cookie, trim_ascii, skip_spaces, drop_spaces_end}
use duckdb_flock.Auth.Request.{authenticate_request}
use duckdb_flock.Auth.Manager.{run_authentication, new_auth_manager}
use duckdb_flock.Auth.Cookie.{
  accepted, cookie, signed_text, issue_cookie, with_key, cookie_signing_key, sign_cookie,
}
use duckdb_flock.Http.{HttpResponse, json_response, set_header, apply_cors, read_ubigint_setting}
use duckdb_flock.Http.Sql.{HandlerState}
use duckdb_flock.Http.Auth.{
  handle_login, login_token, login_with, answer_login, login_cookie, cookie_ttl_sec,
  request_is_behind_https,
}
use duckdb_flock.Http.Escape.{escape_json_string}
use duckdb_flock.Http.Auth.Login.{Sets, handle_login-authenticates}
use duckdb_flock.Examples.Inputs.{
  allowing, toy_openssl, toy_openssl-IsOpenssl, toy_string_util, manager,
}
use duckdb_flock.Examples.Cookies.{empty_keyring, full_keyring}
use duckdb_flock.Examples.Sessions.{two_sessions}
use duckdb_flock.Examples.Handlers.{environment, empty_response, select, state}

iso_utc : ℕ → Bytes
iso_utc t = codes "1970-01-01T12:16:40Z"

abbrev caller : Bytes
caller = principal_id_hex toy_openssl (codes "secret")

abbrev cookie_value : Bytes
cookie_value =
    signed_text caller 44200 (replicate 16 7) ++ b'.' ∷ base64_url_encode (replicate 32 2)

default_ttl : cookie_ttl_sec (some allowing) ≡ 43200
unfolding cookie_ttl_sec read_ubigint_setting
default_ttl = refl

issued :
    issue_cookie toy_openssl empty_keyring 1000 caller 43200 ≡ some (ok cookie_value, full_keyring)
unfolding issue_cookie is_valid_principal_hex is_lower_hex random_bytes with_key cookie_signing_key
    sign_cookie hmac_sha256_b64_url hmac_sha256 principal_id_hex sha256_hex bytes_to_hex hex_char
issued = refl

abbrev answered : HttpResponse
answered =
    json_response 200
      (codes "{\"principal\":\""
        ++ (escape_json_string (principal_abbrev caller)
            ++ (codes "\",\"expires_at\":\""
                ++ (escape_json_string (iso_utc 44200) ++ codes "\"}"))))
      (set_header (codes "Set-Cookie") (login_cookie cookie_value 43200 false)
        (apply_cors manager select empty_response))

abbrev logged_in : HandlerState toy_openssl
logged_in = record { keyring = full_keyring; sessions = two_sessions }

found_token : login_token toy_string_util select ≡ ok (codes "secret")
unfolding login_token trim_ascii skip_spaces drop_spaces_end is_space
found_token = refl

asks :
    (login_with toy_openssl environment iso_utc select
      (apply_cors manager select empty_response)
      state
      (ok (codes "secret")))
    ≡ answer_login toy_openssl environment iso_utc caller select
        (apply_cors manager select empty_response)
        state
        (issue_cookie toy_openssl empty_keyring 1000 caller (cookie_ttl_sec (some allowing)))
unfolding login_with run_authentication new_auth_manager evaluate_auth_query cell_of
asks = refl

answers :
    answer_login toy_openssl environment iso_utc caller select
      (apply_cors manager select empty_response)
      state
      (some (ok cookie_value, full_keyring))
    ≡ (some answered, logged_in)
unfolding answer_login request_is_behind_https cookie_ttl_sec read_ubigint_setting
answers = refl

logs_in :
    handle_login toy_openssl environment iso_utc select empty_response state
    ≡ (some answered, logged_in)
unfolding handle_login
logs_in =
    ap
      (login_with toy_openssl environment iso_utc select (apply_cors manager select empty_response)
        state)
      found_token
    ∙ asks
    ∙ ap
        (λ c.
          answer_login toy_openssl environment iso_utc caller select
            (apply_cors manager select empty_response) state c)
        (ap (issue_cookie toy_openssl empty_keyring 1000 caller) default_ttl ∙ issued)
    ∙ answers

answered-Sets : Sets environment select empty_response answered cookie_value
unfolding json_response set_header cookie_ttl_sec read_ubigint_setting request_is_behind_https
answered-Sets = refl

abbrev cookie_header : Bytes
cookie_header = codes "harbor_session=" ++ cookie_value

finds_cookie : extract_cookie cookie_header (codes "harbor_session") ≡ cookie_value
unfolding extract_cookie signed_text is_space base64_url_encode principal_id_hex bytes_to_hex
    b64_char to_decimal bytes_eq
finds_cookie = refl

expires_later : 44199 < (1000 + cookie_ttl_sec (some allowing)) % 2 ^ 64
expires_later = rw default_ttl (omega arith)

open_only_by_token : manager.unauthenticated ≡ false
unfolding new_auth_manager
open_only_by_token = refl

ok_status : answered.status ≡ 200
unfolding json_response
ok_status = refl

handle_login-authenticates_example :
    (token : Bytes) × (login_token toy_string_util select ≡ ok token)
    × (run_authentication manager (some allowing) (codes "__HARBOR_AUTH__:login") token ≡ true)
    × (two_sessions ≡ two_sessions)
    × (authenticate_request toy_openssl manager none [] full_keyring 44199
          (record { authorization = []; x_harbor = []; cookies = cookie_header })
        ≡ (accepted (principal_id_hex toy_openssl token) cookie, full_keyring))
handle_login-authenticates_example =
    handle_login-authenticates toy_openssl toy_openssl-IsOpenssl environment iso_utc select
      empty_response state answered logged_in none [] cookie_value cookie_header 44199
      open_only_by_token logs_in ok_status answered-Sets finds_cookie expires_later
