-- ===== src/Auth/Cookie/RoundTrip.antt =====
-- A cookie that was issued is accepted until it expires.
use duckdb_flock.Base.{
  ℕ, ◌+◌, ◌%◌, ◌^◌, ◌<◌, ◌≡◌, ◌≢◌, refl, sym, ap, ◌∙◌, true, false, some, [], ◌∷◌, ◌++◌,
  append_assoc, append-nil, Bytes, AreBytes, All, all, bytes_eq_refl, is_empty, length, Result, ok,
  ◌>>=◌, arith, &&-eq-true, Bool-cases, Option-cases, Result-cases, inl, inr,
}
use duckdb_flock.Crypto.Base64Url.{CryptoError, base64_url_encode}
use duckdb_flock.Crypto.Base64Url.RoundTrip.{
  IsPlain, base64_url_encode-IsPlain, base64_url_decode-encode,
}
use duckdb_flock.Crypto.Hex.{is_valid_principal_hex, is_lower_hex, constant_time_equal_refl}
use duckdb_flock.Crypto.Openssl.{Openssl, IsOpenssl, hmac_sha256, hmac_sha256_b64_url, random_bytes}
use duckdb_flock.Auth.Cookie.Decimal.{to_decimal, to_decimal-AreBytes, stoull-to_decimal}
use duckdb_flock.Auth.Cookie.{
  accepted, cookie, split_dots, joined, cookie_version, signed_text, check_payload, decode_payload,
  check_mac, Keyring, cookie_signing_key, with_key, sign_cookie, issue_cookie, both_macs,
  verify_segments, verify_cookie,
}

nonempty : (s : Bytes) → length s ≡ 32 → is_empty s ≡ false
nonempty [] h = absurd (omega arith)
nonempty (c ∷ s) h = refl

-- Splitting at dots.
abbrev NoDot : Bytes → Type 0
NoDot = All (λ c. c ≢ b'.')

split_dots-cut :
    (segment x rest : Bytes)
    → NoDot x
    → split_dots segment (x ++ b'.' ∷ rest) ≡ (segment ++ x) ∷ split_dots [] rest
unfolding split_dots
split_dots-cut segment [] rest h = ap (λ s. s ∷ split_dots [] rest) (sym (append-nil segment))
split_dots-cut segment (c ∷ x) rest h =
    ground
      (arith, h.0, split_dots-cut (segment ++ c ∷ []) x rest h.1, append_assoc segment (c ∷ []) x)

split_dots-last : (segment x : Bytes) → NoDot x → split_dots segment x ≡ (segment ++ x) ∷ []
unfolding split_dots
split_dots-last segment [] h = ap (λ s. s ∷ []) (sym (append-nil segment))
split_dots-last segment (c ∷ x) h =
    ground (arith, h.0, split_dots-last (segment ++ c ∷ []) x h.1, append_assoc segment (c ∷ []) x)

plain-NoDot : (s : Bytes) → All IsPlain s → NoDot s
plain-NoDot [] h = tt
plain-NoDot (c ∷ s) h = (h.0.1, plain-NoDot s h.1)

encoded-NoDot : (s : Bytes) → NoDot (base64_url_encode s)
encoded-NoDot s = plain-NoDot _ (base64_url_encode-IsPlain s)

five_segments :
    (v s1 s2 s3 s4 : Bytes)
    → NoDot v
    → NoDot s1
    → NoDot s2
    → NoDot s3
    → NoDot s4
    → split_dots [] (joined v s1 s2 s3 ++ b'.' ∷ s4) ≡ v ∷ s1 ∷ s2 ∷ s3 ∷ s4 ∷ []
five_segments v s1 s2 s3 s4 hv h1 h2 h3 h4 = rw (
  append_assoc v,
  append_assoc s1,
  append_assoc s2,
  split_dots-cut [] v (s1 ++ b'.' ∷ (s2 ++ b'.' ∷ (s3 ++ b'.' ∷ s4))) hv,
  split_dots-cut [] s1 (s2 ++ b'.' ∷ (s3 ++ b'.' ∷ s4)) h1,
  split_dots-cut [] s2 (s3 ++ b'.' ∷ s4) h2,
  split_dots-cut [] s3 s4 h3,
  split_dots-last [] s4 h4,
)

valid-AreBytes : (p : Bytes) → is_valid_principal_hex p ≡ true → AreBytes p
unfolding is_valid_principal_hex
valid-AreBytes p h = all_bytes p (&&-eq-true _ _ h).1
  where
    one : (c : ℕ) → is_lower_hex c ≡ true → c < 256
    one c h = ground arith

    all_bytes : (p : Bytes) → all is_lower_hex p ≡ true → AreBytes p
    all_bytes [] h = tt
    all_bytes (c ∷ p) h =
        let (a, b) = &&-eq-true (is_lower_hex c) (all is_lower_hex p) h in (one c a, all_bytes p b)

is_empty-signed :
    (principal : Bytes) (expires : ℕ) (nonce rest : Bytes)
    → is_empty (signed_text principal expires nonce ++ rest) ≡ false
unfolding signed_text
is_empty-signed principal expires nonce rest = refl

segments-signed :
    (principal nonce raw : Bytes) (expires later : ℕ)
    → split_dots [] (signed_text principal expires nonce ++ b'.' ∷ base64_url_encode raw)
      ≡ cookie_version
        ∷ base64_url_encode principal
        ∷ base64_url_encode (to_decimal expires)
        ∷ base64_url_encode nonce
        ∷ base64_url_encode raw
        ∷ []
unfolding signed_text
segments-signed principal nonce raw expires later =
    five_segments cookie_version _ _ _ _ (omega arith) (encoded-NoDot principal)
      (encoded-NoDot (to_decimal expires)) (encoded-NoDot nonce) (encoded-NoDot raw)

module _ (o : Openssl) (laws : IsOpenssl o) where
  -- A call that got a key leaves it in the key ring.
  cookie_signing_key-keeps :
      (k k' : Keyring o) (key : Bytes)
      → cookie_signing_key o k ≡ ok (key, k')
      → (k'.signing_key ≡ key) × (is_empty key ≡ false)
  unfolding cookie_signing_key random_bytes
  cookie_signing_key-keeps k k' key h = elim (Bool-cases (is_empty k.signing_key)) [
    | inl e ↦ elim (Option-cases (o.rand_bytes 32 k.rng)) [
      | inl out ↦ ground arith
      | inr (drawn, d) ↦
          ground (arith, laws.rand_bytes_fill 32 k.rng drawn.1 drawn.0 d, nonempty drawn.0)
    ]
    | inr e ↦ ground arith
  ]

  cookie_signing_key-again :
      (k : Keyring o)
      → is_empty k.signing_key ≡ false
      → cookie_signing_key o k ≡ ok (k.signing_key, k)
  unfolding cookie_signing_key
  cookie_signing_key-again k h = rw h refl

  with_key-ok :
      (k k' : Keyring o) (f : Bytes → Result CryptoError Bytes) (v : Bytes)
      → with_key o k f ≡ (ok v, k')
      → (f k'.signing_key ≡ ok v) × (is_empty k'.signing_key ≡ false)
  unfolding with_key
  with_key-ok k k' f v h = elim (Result-cases (cookie_signing_key o k)) [
    | inl (drawn, e) ↦
        let (same, full) = cookie_signing_key-keeps k drawn.1 drawn.0 e in
        ground (arith, same, full, e)
    | inr (c, e) ↦ ground (arith, e)
  ]

  with_key-again :
      (k : Keyring o) (f : Bytes → Result CryptoError (Bytes × Bytes))
      → is_empty k.signing_key ≡ false
      → with_key o k f ≡ (f k.signing_key, k)
  unfolding with_key
  with_key-again k f h = rw (with_key, cookie_signing_key-again k h) refl

  -- What a successful call has returned.
  issued :
      (k k' : Keyring o) (now ttl : ℕ) (principal value : Bytes)
      → issue_cookie o k now principal ttl ≡ some (ok value, k')
      → (nonce : Bytes) × (is_valid_principal_hex principal ≡ true)
        × (sign_cookie o (signed_text principal ((now + ttl) % 2 ^ 64) nonce) k'.signing_key
            ≡ ok value)
        × (is_empty k'.signing_key ≡ false)
  unfolding issue_cookie
  issued k k' now ttl principal value h = elim (Bool-cases (is_valid_principal_hex principal)) [
    | inl valid ↦ elim (Result-cases (random_bytes o 16 k.rng)) [
      | inl (drawn, e) ↦
          let (signed, full) =
            with_key-ok (record k { rng = drawn.1 }) k'
              (sign_cookie o (signed_text principal ((now + ttl) % 2 ^ 64) drawn.0)) value
              (ground arith) in
          (drawn.0, valid, signed, full)
      | inr (c, e) ↦ absurd (ground arith)
    ]
    | inr bad ↦ absurd (ground arith)
  ]

  -- What a signed text consists of.
  signed :
      (text key value : Bytes)
      → sign_cookie o text key ≡ ok value
      → (raw : Bytes) × (hmac_sha256 o key text ≡ ok raw)
        × AreBytes raw
        × (value ≡ text ++ b'.' ∷ base64_url_encode raw)
  unfolding sign_cookie hmac_sha256_b64_url
  signed text key value h = elim (Option-cases (o.hmac key text)) [
    | inl e ↦ absurd (ground arith)
    | inr (raw, e) ↦ (raw, ground arith, laws.hmac_bytes key text raw e, ground arith)
  ]

  both_macs-signed :
      (k : Keyring o) (text raw : Bytes)
      → is_empty k.signing_key ≡ false
      → hmac_sha256 o k.signing_key text ≡ ok raw
      → AreBytes raw
      → both_macs o k text (base64_url_encode raw) ≡ (ok (raw, raw), k)
  unfolding both_macs
  both_macs-signed k text raw full h are =
      rw (both_macs, base64_url_decode-encode raw are)
        (with_key-again k _ full ∙ λ i. ((h i >>= λ expected. ok (expected, raw)), k))

  payload-signed :
      (principal : Bytes) (expires later : ℕ)
      → is_valid_principal_hex principal ≡ true
      → expires < 2 ^ 64
      → later < expires
      → check_payload later
          (decode_payload (base64_url_encode principal) (base64_url_encode (to_decimal expires)))
        ≡ accepted principal cookie
  unfolding check_payload decode_payload
  payload-signed principal expires later valid fits live =
      rw
        (
          decode_payload,
          base64_url_decode-encode principal (valid-AreBytes principal valid),
          base64_url_decode-encode (to_decimal expires) (to_decimal-AreBytes expires),
          stoull-to_decimal expires fits,
        )
        (ground arith)

  verify-signed :
      (k : Keyring o) (principal nonce raw : Bytes) (expires later : ℕ)
      → is_valid_principal_hex principal ≡ true
      → is_empty k.signing_key ≡ false
      → hmac_sha256 o k.signing_key (signed_text principal expires nonce) ≡ ok raw
      → AreBytes raw
      → expires < 2 ^ 64
      → later < expires
      → verify_segments o k later (
          cookie_version
          ∷ base64_url_encode principal
          ∷ base64_url_encode (to_decimal expires)
          ∷ base64_url_encode nonce
          ∷ base64_url_encode raw
          ∷ [])
        ≡ (accepted principal cookie, k)
  unfolding verify_segments check_mac signed_text
  verify-signed k principal nonce raw expires later valid full mac are fits live =
      rw
        (
          bytes_eq_refl cookie_version,
          both_macs-signed k (signed_text principal expires nonce) raw full mac are,
          constant_time_equal_refl raw,
        )
        (λ i. (payload-signed principal expires later valid fits live i, k))

  verify-split :
      (k : Keyring o) (principal nonce raw : Bytes) (expires later : ℕ)
      → verify_cookie o k later
          (signed_text principal expires nonce ++ b'.' ∷ base64_url_encode raw)
        ≡ verify_segments o k later (
            cookie_version
            ∷ base64_url_encode principal
            ∷ base64_url_encode (to_decimal expires)
            ∷ base64_url_encode nonce
            ∷ base64_url_encode raw
            ∷ [])
  unfolding verify_cookie
  verify-split k principal nonce raw expires later =
      rw
        (
          is_empty-signed principal expires nonce (b'.' ∷ base64_url_encode raw),
          segments-signed principal nonce raw expires later,
        )
        refl

  -- With an OpenSSL that does what its manual says: a cookie that `issue_cookie` returned is
  -- accepted, at any time before its expiry (the time of issue plus the time to live, as a
  -- `uint64_t`), with the principal that it was issued for; the key ring stays as it is.
  pub verify_cookie-issue_cookie :
      (k k' : Keyring o) (now ttl later : ℕ) (principal value : Bytes)
      → issue_cookie o k now principal ttl ≡ some (ok value, k')
      → later < (now + ttl) % 2 ^ 64
      → verify_cookie o k' later value ≡ (accepted principal cookie, k')
  verify_cookie-issue_cookie k k' now ttl later principal value h live =
      let (nonce, valid, signs, full) = issued k k' now ttl principal value h in
      let (raw, mac, are, text) =
        signed (signed_text principal ((now + ttl) % 2 ^ 64) nonce) k'.signing_key value signs in
      rw text (
        verify-split k' principal nonce raw ((now + ttl) % 2 ^ 64) later
        ∙ verify-signed k' principal nonce raw ((now + ttl) % 2 ^ 64) later valid full mac are
            (omega arith) live)
