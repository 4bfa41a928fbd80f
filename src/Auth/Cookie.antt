-- ===== src/Auth/Cookie.antt =====
-- src/harbor_auth.cpp: the signing key, `IssueCookie` and `VerifyCookie`.
pub mod Decimal
pub mod RoundTrip
pub mod Sound
use duckdb_flock.Base.{
  ℕ, zero, suc, ◌+◌, ◌-◌, ◌*◌, ◌%◌, ◌^◌, Bool, true, false, not, ◌&&◌, Option, none, some, List, [],
  ◌∷◌, ◌++◌, Bytes, codes, bytes_eq, is_empty, length, Result, ok, err, ◌>>=◌, ◌==◌, leb,
  if◌then◌else◌,
}
use duckdb_flock.Crypto.Base64Url.{CryptoError, base64_url_encode, base64_url_decode}
use duckdb_flock.Crypto.Hex.{is_valid_principal_hex, constant_time_equal}
use duckdb_flock.Crypto.Openssl.{Openssl, hmac_sha256, hmac_sha256_b64_url, random_bytes}
use duckdb_flock.Auth.Cookie.Decimal.{to_decimal, stoull}

pub data AuthSource : Type 0 where
  none_source bearer x_harbor_token cookie local_dev : AuthSource

pub data ErrorCode : Type 0 where
  no_error missing_credential invalid_token unsupported_auth_scheme : ErrorCode
  missing_cookie bad_cookie_format bad_cookie_version bad_cookie_sig : ErrorCode
  bad_cookie_payload cookie_expired : ErrorCode

pub record AuthResult : Type 0 where
  pub success : Bool
  pub principal_id : Bytes
  pub source : AuthSource
  pub error_code : ErrorCode

-- An `AuthResult` whose error code alone was set.
abbrev pub refused : ErrorCode → AuthResult
refused e = record { success = false; principal_id = []; source = none_source; error_code = e }

abbrev pub accepted : Bytes → AuthSource → AuthResult
accepted p s = record { success = true; principal_id = p; source = s; error_code = no_error }

-- `for (...) if (cookie_value[i] == '.') segments.push_back(...)`, and the last segment: the
-- characters since the last dot come first.
unfoldable pub split_dots : Bytes → Bytes → List Bytes
split_dots segment [] = segment ∷ []
split_dots segment (c ∷ s) =
    let cut = split_dots [] s in
    let longer = split_dots (segment ++ c ∷ []) s in if c == b'.' then segment ∷ cut else longer

abbrev pub cookie_version : Bytes
cookie_version = codes "v1"

abbrev pub joined : Bytes → Bytes → Bytes → Bytes → Bytes
joined v s1 s2 s3 = v ++ b'.' ∷ (s1 ++ b'.' ∷ (s2 ++ b'.' ∷ s3))

-- The text that is signed: version, principal, expiry and nonce.
unfoldable pub signed_text : Bytes → ℕ → Bytes → Bytes
signed_text principal expires nonce =
    joined cookie_version (base64_url_encode principal) (base64_url_encode (to_decimal expires))
      (base64_url_encode nonce)

-- The checks on the payload, after the signature was found right.
unfoldable pub check_payload : ℕ → Result CryptoError (Bytes × Option ℕ) → AuthResult
check_payload now (err e) = refused bad_cookie_payload
check_payload now (ok (principal, none)) = refused bad_cookie_payload
check_payload now (ok (principal, some expires)) =
    if not (is_valid_principal_hex principal)
    then refused bad_cookie_payload
    else if leb expires now
    then refused cookie_expired
    else accepted principal cookie

unfoldable pub decode_payload : Bytes → Bytes → Result CryptoError (Bytes × Option ℕ)
decode_payload s1 s2 = do
  p_bytes ← base64_url_decode s1
  e_bytes ← base64_url_decode s2
  ok (p_bytes, stoull e_bytes)

-- The comparison of the codes, `err` standing for the `catch`.
unfoldable pub check_mac : ℕ → Bytes → Bytes → Result CryptoError (Bytes × Bytes) → AuthResult
check_mac now s1 s2 (err e) = refused bad_cookie_format
check_mac now s1 s2 (ok (expected, actual)) =
    if not (constant_time_equal expected actual)
    then refused bad_cookie_sig
    else check_payload now (decode_payload s1 s2)

module _ (o : Openssl) where
  -- The signing key, empty until its first use, and the random generator.
  pub record Keyring : Type 0 where
    pub signing_key : Bytes
    pub rng : o.Rng

  unfoldable pub cookie_signing_key : Keyring → Result CryptoError (Bytes × Keyring)
  cookie_signing_key k =
      if is_empty k.signing_key
      then (do
        drawn ← random_bytes o 32 k.rng
        ok (drawn.0, record { signing_key = drawn.0; rng = drawn.1 }))
      else ok (k.signing_key, k)

  -- A call that asks for the key and goes on with it, with the key ring that is left. Whatever
  -- was drawn before stays drawn if it throws.
  unfoldable pub with_key {ℓ} :
      {A : Type ℓ} → Keyring → (Bytes → Result CryptoError A) → Result CryptoError A × Keyring
  unfolding cookie_signing_key
  with_key k f = elim (cookie_signing_key k) [ err e ↦ (err e, k) | ok (key, k') ↦ (f key, k') ]

  unfoldable pub sign_cookie : Bytes → Bytes → Result CryptoError Bytes
  sign_cookie mac_input key = do
    seg4 ← hmac_sha256_b64_url o key mac_input
    ok (mac_input ++ b'.' ∷ seg4)

  -- `none` is the `InvalidInputException`, an error one of the `std::runtime_error`s. The nonce is
  -- drawn before the key.
  unfoldable pub issue_cookie :
      Keyring → ℕ → Bytes → ℕ → Option (Result CryptoError Bytes × Keyring)
  issue_cookie k now principal ttl =
      if not (is_valid_principal_hex principal)
      then none
      else some (elim (random_bytes o 16 k.rng) [
        | err e ↦ (err e, k)
        | ok (nonce, g) ↦
            with_key (record k { rng = g })
              (sign_cookie (signed_text principal ((now + ttl) % 2 ^ 64) nonce))
      ])

  -- Both codes, the expected one and the one presented, with the key ring after the call.
  unfoldable pub both_macs : Keyring → Bytes → Bytes → Result CryptoError (Bytes × Bytes) × Keyring
  both_macs k mac_input s4 = elim (base64_url_decode s4) [
    | err e ↦ (err e, k)
    | ok actual ↦
        with_key k (λ key. do expected ← hmac_sha256 o key mac_input; ok (expected, actual))
  ]

  unfoldable pub verify_segments : Keyring → ℕ → List Bytes → AuthResult × Keyring
  verify_segments k now (v ∷ s1 ∷ s2 ∷ s3 ∷ s4 ∷ []) =
      if not (bytes_eq v cookie_version)
      then (refused bad_cookie_version, k)
      else let macs = both_macs k (joined v s1 s2 s3) s4 in (check_mac now s1 s2 macs.0, macs.1)
  verify_segments k now _ = (refused bad_cookie_format, k)

  unfoldable pub verify_cookie : Keyring → ℕ → Bytes → AuthResult × Keyring
  verify_cookie k now value =
      if is_empty value
      then (refused missing_cookie, k)
      else verify_segments k now (split_dots [] value)
