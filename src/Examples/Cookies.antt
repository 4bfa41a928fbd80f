-- ===== src/Examples/Cookies.antt =====
-- Cookies that are issued and verified.
use duckdb_flock.Base.{◌≡◌, refl, some, [], ◌∷◌, ◌++◌, Bytes, codes, replicate, ok, arith, is_space}
use duckdb_flock.Crypto.Openssl.{random_bytes, hmac_sha256, hmac_sha256_b64_url}
use duckdb_flock.Crypto.Base64Url.{base64_url_encode, base64_url_decode}
use duckdb_flock.Crypto.Base64Url.RoundTrip.{base64_url_decode-encode}
use duckdb_flock.Crypto.Hex.{is_valid_principal_hex, is_lower_hex}
use duckdb_flock.Auth.Cookie.{
  Keyring, signed_text, issue_cookie, verify_cookie, accepted, cookie, with_key, cookie_signing_key,
  sign_cookie,
}
use duckdb_flock.Auth.Cookie.RoundTrip.{verify_cookie-issue_cookie}
use duckdb_flock.Auth.Cookie.Sound.{IsSigned, verify_cookie_sound}
use duckdb_flock.Auth.Text.CookieHeader.{Pair, IsPair, render, lookup_pair, extract_cookie-render}
use duckdb_flock.Auth.Text.{extract_cookie}
use duckdb_flock.Examples.Inputs.{toy_openssl, toy_openssl-IsOpenssl, alice}

abbrev pub empty_keyring : Keyring toy_openssl
empty_keyring = record { signing_key = []; rng = tt }

abbrev pub full_keyring : Keyring toy_openssl
full_keyring = record { signing_key = replicate 32 7; rng = tt }

abbrev pub alice_cookie : Bytes
alice_cookie = signed_text alice 2000 (replicate 16 7) ++ b'.' ∷ base64_url_encode (replicate 32 2)

issued :
    issue_cookie toy_openssl empty_keyring 1000 alice 1000 ≡ some (ok alice_cookie, full_keyring)
unfolding issue_cookie is_valid_principal_hex is_lower_hex random_bytes with_key cookie_signing_key
    sign_cookie hmac_sha256_b64_url hmac_sha256
issued = refl

pub accepted_later :
    verify_cookie toy_openssl full_keyring 1999 alice_cookie ≡ (accepted alice cookie, full_keyring)
accepted_later =
    verify_cookie-issue_cookie toy_openssl toy_openssl-IsOpenssl empty_keyring full_keyring 1000
      1000 1999 alice alice_cookie issued (omega arith)

verify_cookie-issue_cookie_example :
    verify_cookie toy_openssl full_keyring 1999 alice_cookie ≡ (accepted alice cookie, full_keyring)
verify_cookie-issue_cookie_example =
    verify_cookie-issue_cookie toy_openssl toy_openssl-IsOpenssl empty_keyring full_keyring 1000
      1000 1999 alice alice_cookie issued (omega arith)

verify_cookie_sound_example : IsSigned toy_openssl (replicate 32 7) 1999 alice_cookie alice
verify_cookie_sound_example =
    verify_cookie_sound toy_openssl full_keyring full_keyring 1999 alice_cookie alice accepted_later

base64_url_decode-encode_example :
    base64_url_decode (base64_url_encode (0 ∷ 255 ∷ 62 ∷ 7 ∷ [])) ≡ ok (0 ∷ 255 ∷ 62 ∷ 7 ∷ [])
base64_url_decode-encode_example =
    base64_url_decode-encode (0 ∷ 255 ∷ 62 ∷ 7 ∷ [])
      (omega arith, (omega arith, (omega arith, (omega arith, tt))))

abbrev theme : Pair
theme = record { name = codes "theme"; value = codes "a=b" }

abbrev session : Pair
session = record { name = codes "harbor_session"; value = codes "v1.x" }

theme-IsPair : IsPair theme
unfolding is_space
theme-IsPair = record {
  name_no_eq = ground arith;
  name_no_semi = ground arith;
  name_no_space = refl;
  value_no_semi = ground arith;
}

session-IsPair : IsPair session
unfolding is_space
session-IsPair = record {
  name_no_eq = ground arith;
  name_no_semi = ground arith;
  name_no_space = refl;
  value_no_semi = ground arith;
}

extract_cookie-render_example :
    extract_cookie (render (theme ∷ session ∷ [])) (codes "harbor_session")
    ≡ lookup_pair (codes "harbor_session") (theme ∷ session ∷ [])
extract_cookie-render_example =
    extract_cookie-render (theme ∷ session ∷ []) (codes "harbor_session")
      (theme-IsPair, (session-IsPair, tt)) refl
