-- ===== src/Auth/Cookie/Sound.antt =====
-- What an accepted cookie must hold.
use duckdb_flock.Base.{
  ℕ, ◌<◌, ◌≡◌, refl, sym, ap, ◌∙◌, true, Option, none, some, List, [], ◌∷◌, Bytes, bytes_eq,
  bytes_eq→eq, is_empty, Result, ok, err, ◌>>=◌, >>=-eq-ok, arith, Bool-cases, Option-cases,
  Result-cases, inl, inr,
}
use duckdb_flock.Crypto.Base64Url.{CryptoError, base64_url_decode}
use duckdb_flock.Crypto.Hex.{is_valid_principal_hex, constant_time_equal, constant_time_equal→eq}
use duckdb_flock.Crypto.Openssl.{Openssl, hmac_sha256}
use duckdb_flock.Auth.Cookie.Decimal.{stoull}
use duckdb_flock.Auth.Cookie.{
  accepted, cookie, split_dots, joined, cookie_version, check_payload, decode_payload, check_mac,
  Keyring, cookie_signing_key, with_key, both_macs, verify_segments, verify_cookie,
}

payload_sound :
    (now : ℕ) (s1 s2 p : Bytes)
    → check_payload now (decode_payload s1 s2) ≡ accepted p cookie
    → (e_bytes : Bytes) × (expires : ℕ) × (base64_url_decode s1 ≡ ok p)
      × (base64_url_decode s2 ≡ ok e_bytes)
      × (stoull e_bytes ≡ some expires)
      × (is_valid_principal_hex p ≡ true)
      × (now < expires)
unfolding check_payload decode_payload
payload_sound now s1 s2 p h = elim (Result-cases (base64_url_decode s1)) [
  | inr (c, e) ↦ absurd (ground arith)
  | inl (p_bytes, e1) ↦ elim (Result-cases (base64_url_decode s2)) [
    | inr (c, e) ↦ absurd (ground arith)
    | inl (e_bytes, e2) ↦ elim (Option-cases (stoull e_bytes)) [
      | inl e ↦ absurd (ground arith)
      | inr (expires, e3) ↦ (e_bytes, expires, ground arith, e2, e3, ground arith, ground arith)
    ]
  ]
]

mac_sound :
    (now : ℕ) (s1 s2 p : Bytes) (r : Result CryptoError (Bytes × Bytes))
    → check_mac now s1 s2 r ≡ accepted p cookie
    → (mac : Bytes) × (r ≡ ok (mac, mac))
      × (check_payload now (decode_payload s1 s2) ≡ accepted p cookie)
unfolding check_mac
mac_sound now s1 s2 p (err e) h = absurd (ground arith)
mac_sound now s1 s2 p (ok (expected, actual)) h =
    elim (Bool-cases (constant_time_equal expected actual)) [
      | inl same ↦
          let e = constant_time_equal→eq expected actual same in
          (expected, (λ i. ok (expected, sym e i)), rw same at h)
      | inr differ ↦ absurd (ground arith)
    ]

module _ (o : Openssl) where
  -- The text of a cookie that was signed with the key: five segments, the last of which decodes to
  -- the code of the other four, a well-formed principal in the second and an expiry in the third.
  pub record IsSigned (key : Bytes) (now : ℕ) (value principal : Bytes) : Type 0 where
    pub s1 : Bytes
    pub s2 : Bytes
    pub s3 : Bytes
    pub s4 : Bytes
    pub mac : Bytes
    pub expiry : Bytes
    pub expires : ℕ
    pub segments : split_dots [] value ≡ cookie_version ∷ s1 ∷ s2 ∷ s3 ∷ s4 ∷ []
    pub presented : base64_url_decode s4 ≡ ok mac
    pub computed : hmac_sha256 o key (joined cookie_version s1 s2 s3) ≡ ok mac
    pub principal_at : base64_url_decode s1 ≡ ok principal
    pub principal_valid : is_valid_principal_hex principal ≡ true
    pub expiry_at : base64_url_decode s2 ≡ ok expiry
    pub expiry_read : stoull expiry ≡ some expires
    pub live : now < expires

  key_in_ring :
      (k k' : Keyring o) (key : Bytes)
      → cookie_signing_key o k ≡ ok (key, k')
      → k'.signing_key ≡ key
  unfolding cookie_signing_key
  key_in_ring k k' key h = ground arith

  with_key_sound :
      (k k' : Keyring o) (f : Bytes → Result CryptoError (Bytes × Bytes)) (m : Bytes × Bytes)
      → with_key o k f ≡ (ok m, k')
      → f k'.signing_key ≡ ok m
  unfolding with_key
  with_key_sound k k' f m h = elim (Result-cases (cookie_signing_key o k)) [
    | inl (drawn, e) ↦ ground (arith, key_in_ring k drawn.1 drawn.0 e, e)
    | inr (c, e) ↦ absurd (ground (arith, e))
  ]

  both_macs_sound :
      (k k' : Keyring o) (text s4 expected actual : Bytes)
      → both_macs o k text s4 ≡ (ok (expected, actual), k')
      → (base64_url_decode s4 ≡ ok actual) × (hmac_sha256 o k'.signing_key text ≡ ok expected)
  unfolding both_macs
  both_macs_sound k k' text s4 expected actual h = elim (Result-cases (base64_url_decode s4)) [
    | inr (c, e) ↦ absurd (ground arith)
    | inl (shown, e) ↦
        let keyed =
          with_key_sound k k'
            (λ (key : Bytes). hmac_sha256 o key text >>= λ found. ok (found, shown))
            (expected, actual) (ground arith) in
        let (found, mac, pair) =
          >>=-eq-ok (hmac_sha256 o k'.signing_key text) (λ found. ok (found, shown)) keyed in
        (ground arith, ground arith)
  ]

  from_macs :
      (k k' : Keyring o) (now : ℕ) (value p s1 s2 s3 s4 : Bytes)
      (macs : Result CryptoError (Bytes × Bytes))
      → split_dots [] value ≡ cookie_version ∷ s1 ∷ s2 ∷ s3 ∷ s4 ∷ []
      → both_macs o k (joined cookie_version s1 s2 s3) s4 ≡ (macs, k')
      → check_mac now s1 s2 macs ≡ accepted p cookie
      → IsSigned k'.signing_key now value p
  from_macs k k' now value p s1 s2 s3 s4 macs split e checked =
      let (mac, same, payload) = mac_sound now s1 s2 p macs checked in
      let (shown, made) =
        both_macs_sound k k' (joined cookie_version s1 s2 s3) s4 mac mac (e ∙ λ i. (same i, k')) in
      let (expiry, expires, at1, at2, read, valid, live) = payload_sound now s1 s2 p payload in
      record {
        s1 = s1;
        s2 = s2;
        s3 = s3;
        s4 = s4;
        mac = mac;
        expiry = expiry;
        expires = expires;
        segments = split;
        presented = shown;
        computed = made;
        principal_at = at1;
        principal_valid = valid;
        expiry_at = at2;
        expiry_read = read;
        live = live;
      }

  segments_sound :
      (k k' : Keyring o) (now : ℕ) (value p : Bytes) (segments : List Bytes)
      → split_dots [] value ≡ segments
      → verify_segments o k now segments ≡ (accepted p cookie, k')
      → IsSigned k'.signing_key now value p
  unfolding verify_segments
  segments_sound k k' now value p (v ∷ s1 ∷ s2 ∷ s3 ∷ s4 ∷ []) split h =
      elim (Bool-cases (bytes_eq v cookie_version)) [
        | inr differ ↦ absurd (ground arith)
        | inl same ↦
            let e = bytes_eq→eq v cookie_version same in
            let found : (
              check_mac now s1 s2 (both_macs o k (joined v s1 s2 s3) s4).0,
              (both_macs o k (joined v s1 s2 s3) s4).1,
            )
                ≡ (accepted p cookie, k') =
              rw same at h in
            let macs : both_macs o k (joined cookie_version s1 s2 s3) s4
                ≡ ((both_macs o k (joined v s1 s2 s3) s4).0, k') =
              ap (λ w. both_macs o k (joined w s1 s2 s3) s4) (sym e) ∙ λ i.
              ((both_macs o k (joined v s1 s2 s3) s4).0, (found i).1) in
            from_macs k k' now value p s1 s2 s3 s4 _ (split ∙ λ i. e i ∷ s1 ∷ s2 ∷ s3 ∷ s4 ∷ [])
              macs (λ i. (found i).0)
      ]
  segments_sound k k' now value p _ split h = absurd (ground arith)

  -- A cookie is accepted only if it was signed, in this very text, with the key that is in the key
  -- ring after the call, for the principal that comes out, and has not expired.
  pub verify_cookie_sound :
      (k k' : Keyring o) (now : ℕ) (value principal : Bytes)
      → verify_cookie o k now value ≡ (accepted principal cookie, k')
      → IsSigned k'.signing_key now value principal
  unfolding verify_cookie
  verify_cookie_sound k k' now value principal h = elim (Bool-cases (is_empty value)) [
    | inl e ↦ absurd (ground arith)
    | inr e ↦ segments_sound k k' now value principal (split_dots [] value) refl (rw e at h)
  ]

  -- A result that succeeds has no other field than its principal to choose.
  check_payload-form :
      (now : ℕ) (r : Result CryptoError (Bytes × Option ℕ))
      → (check_payload now r).success ≡ true
      → check_payload now r ≡ accepted (check_payload now r).principal_id cookie
  unfolding check_payload
  check_payload-form now (err e) h = absurd (ground arith)
  check_payload-form now (ok (p, none)) h = absurd (ground arith)
  check_payload-form now (ok (p, some expires)) h = ground arith

  check_mac-form :
      (now : ℕ) (s1 s2 : Bytes) (r : Result CryptoError (Bytes × Bytes))
      → (check_mac now s1 s2 r).success ≡ true
      → check_mac now s1 s2 r ≡ accepted (check_mac now s1 s2 r).principal_id cookie
  unfolding check_mac
  check_mac-form now s1 s2 (err e) h = absurd (ground arith)
  check_mac-form now s1 s2 (ok (x, y)) h = elim (Bool-cases (constant_time_equal x y)) [
    | inl same ↦ rw same (check_payload-form now (decode_payload s1 s2) (rw same at h))
    | inr differ ↦ absurd (ground arith)
  ]

  segments-form :
      (k : Keyring o) (now : ℕ) (segments : List Bytes)
      → (verify_segments o k now segments).0.success ≡ true
      → (verify_segments o k now segments).0
        ≡ accepted (verify_segments o k now segments).0.principal_id cookie
  unfolding verify_segments
  segments-form k now (v ∷ s1 ∷ s2 ∷ s3 ∷ s4 ∷ []) h =
      elim (Bool-cases (bytes_eq v cookie_version)) [
        | inl same ↦
            rw same
              (check_mac-form now s1 s2 (both_macs o k (joined v s1 s2 s3) s4).0 (rw same at h))
        | inr differ ↦ absurd (ground arith)
      ]
  segments-form k now _ h = absurd (ground arith)

  pub verify_cookie-form :
      (k : Keyring o) (now : ℕ) (value : Bytes)
      → (verify_cookie o k now value).0.success ≡ true
      → (verify_cookie o k now value).0
        ≡ accepted (verify_cookie o k now value).0.principal_id cookie
  unfolding verify_cookie
  verify_cookie-form k now value h = elim (Bool-cases (is_empty value)) [
    | inl e ↦ absurd (ground arith)
    | inr e ↦ rw e (segments-form k now (split_dots [] value) (rw e at h))
  ]
