-- ===== src/Auth/Request/Precedence.antt =====
-- Which credential counts, and what every success rests on.
use duckdb_flock.Base.{
  ℕ, ◌≡◌, refl, ap, sym, ◌∙◌, true, not, Option, [], Bytes, codes, is_empty, starts_with, drop,
  if◌then◌else◌, arith, Bool-cases, inl, inr,
}
use mathlib.Core.Path.{subst}
use duckdb_flock.Duckdb.{Database}
use duckdb_flock.Crypto.Openssl.{Openssl, principal_id_hex}
use duckdb_flock.Auth.Text.{trim_ascii, extract_cookie}
use duckdb_flock.Auth.Manager.{AuthManager, run_authentication}
use duckdb_flock.Auth.Cookie.{
  AuthResult, AuthSource, bearer, x_harbor_token, local_dev, cookie, accepted, Keyring,
  verify_cookie,
}
use duckdb_flock.Auth.Cookie.Sound.{IsSigned, verify_cookie_sound, verify_cookie-form}
use duckdb_flock.Auth.Request.{
  Headers, local_dev_principal_id, bearer_prefix, check_token, try_bearer, try_x_harbor, try_cookie,
  authenticate_request,
}

-- The headers without those that a header before them makes irrelevant.
abbrev pub deciding : Headers → Headers
deciding h =
    if not (is_empty h.authorization)
    then record h { x_harbor = []; cookies = [] }
    else if not (is_empty h.x_harbor)
    then record h { cookies = [] }
    else h

module _ (o : Openssl) (m : AuthManager) (db : Option Database) (session_id : Bytes) where
  -- The grounds on which a request is let in.
  pub data Grounds (k' : Keyring o) (now : ℕ) (h : Headers) (r : AuthResult) : Type 0 where
    open_server :
        m.unauthenticated ≡ true
        → r ≡ accepted local_dev_principal_id local_dev
        → Grounds k' now h r
    by_bearer :
        starts_with h.authorization bearer_prefix ≡ true
        → run_authentication m db session_id (trim_ascii (drop 7 h.authorization)) ≡ true
        → r ≡ accepted (principal_id_hex o (trim_ascii (drop 7 h.authorization))) bearer
        → Grounds k' now h r
    by_x_harbor :
        is_empty h.authorization ≡ true
        → run_authentication m db session_id (trim_ascii h.x_harbor) ≡ true
        → r ≡ accepted (principal_id_hex o (trim_ascii h.x_harbor)) x_harbor_token
        → Grounds k' now h r
    by_cookie :
        is_empty h.authorization ≡ true
        → is_empty h.x_harbor ≡ true
        → IsSigned o k'.signing_key now
            (extract_cookie h.cookies (codes "harbor_session"))
            r.principal_id
        → r ≡ accepted r.principal_id cookie
        → Grounds k' now h r

  check_token_sound :
      (source : AuthSource) (token : Bytes)
      → (check_token o m db session_id source token).success ≡ true
      → (run_authentication m db session_id token ≡ true)
        × (check_token o m db session_id source token ≡ accepted (principal_id_hex o token) source)
  unfolding check_token
  check_token_sound source token h = ground arith

  bearer-Grounds :
      (k : Keyring o) (now : ℕ) (h : Headers)
      → (try_bearer o m db session_id h.authorization).success ≡ true
      → Grounds k now h (try_bearer o m db session_id h.authorization)
  unfolding try_bearer
  bearer-Grounds k now h success = elim (Bool-cases (starts_with h.authorization bearer_prefix)) [
    | inr e ↦ absurd (ground arith)
    | inl e ↦
        let (ran, made) =
          check_token_sound bearer (trim_ascii (drop 7 h.authorization)) (rw e at success) in
        by_bearer e ran (rw e made)
  ]

  x_harbor-Grounds :
      (k : Keyring o) (now : ℕ) (h : Headers)
      → is_empty h.authorization ≡ true
      → (try_x_harbor o m db session_id h.x_harbor).success ≡ true
      → Grounds k now h (try_x_harbor o m db session_id h.x_harbor)
  unfolding try_x_harbor
  x_harbor-Grounds k now h no_auth success =
      let (ran, made) = check_token_sound x_harbor_token (trim_ascii h.x_harbor) success in
      by_x_harbor no_auth ran made

  cookie-Grounds :
      (k : Keyring o) (now : ℕ) (h : Headers)
      → is_empty h.authorization ≡ true
      → is_empty h.x_harbor ≡ true
      → (try_cookie o m db session_id k now h.cookies).0.success ≡ true
      → Grounds
          (try_cookie o m db session_id k now h.cookies).1
          now
          h
          (try_cookie o m db session_id k now h.cookies).0
  unfolding try_cookie
  cookie-Grounds k now h no_auth no_x success = elim (Bool-cases (is_empty h.cookies)) [
    | inl e ↦ absurd (ground arith)
    | inr e ↦ elim (Bool-cases (is_empty (extract_cookie h.cookies (codes "harbor_session")))) [
      | inl f ↦ absurd (ground arith)
      | inr f ↦
          let value = extract_cookie h.cookies (codes "harbor_session") in
          let form = verify_cookie-form o k now value (rw (e, f) at success) in
          rw (e, f)
            (by_cookie no_auth no_x
              (verify_cookie_sound o k (verify_cookie o k now value).1 now value _
                (λ i. (form i, (verify_cookie o k now value).1)))
              form)
    ]
  ]

  Grounds-of :
      (k : Keyring o) (now : ℕ) (h : Headers) (p : AuthResult × Keyring o)
      → authenticate_request o m db session_id k now h ≡ p
      → Grounds p.1 now h p.0
      → Grounds
          (authenticate_request o m db session_id k now h).1
          now
          h
          (authenticate_request o m db session_id k now h).0
  Grounds-of k now h p e g = subst (λ (q : AuthResult × Keyring o). Grounds q.1 now h q.0) (sym e) g

  -- A request that authenticates did so on one of four grounds: the server runs without
  -- authentication; a Bearer token that the callback accepts; no Authorization header and an
  -- X-Harbor-Token that it accepts; or neither header and a signed cookie that has not expired. The
  -- principal is the hash of the token, or the one of the cookie.
  pub authenticate_request_sound :
      (k : Keyring o) (now : ℕ) (h : Headers)
      → (authenticate_request o m db session_id k now h).0.success ≡ true
      → Grounds
          (authenticate_request o m db session_id k now h).1
          now
          h
          (authenticate_request o m db session_id k now h).0
  unfolding authenticate_request
  authenticate_request_sound k now h success = elim (Bool-cases m.unauthenticated) [
    | inl e ↦
        Grounds-of k now h (accepted local_dev_principal_id local_dev, k) (ground arith)
          (open_server e refl)
    | inr e ↦ elim (Bool-cases (is_empty h.authorization)) [
      | inr a ↦
          let p : authenticate_request o m db session_id k now h
              ≡ (try_bearer o m db session_id h.authorization, k) =
            ground arith in
          Grounds-of k now h _ p (bearer-Grounds k now h (ap (λ q. q.0.success) (sym p) ∙ success))
      | inl a ↦ elim (Bool-cases (is_empty h.x_harbor)) [
        | inr x ↦
            let p : authenticate_request o m db session_id k now h
                ≡ (try_x_harbor o m db session_id h.x_harbor, k) =
              ground arith in
            Grounds-of k now h _ p
              (x_harbor-Grounds k now h a (ap (λ q. q.0.success) (sym p) ∙ success))
        | inl x ↦
            let p : authenticate_request o m db session_id k now h
                ≡ try_cookie o m db session_id k now h.cookies =
              ground arith in
            Grounds-of k now h _ p
              (cookie-Grounds k now h a x (ap (λ q. q.0.success) (sym p) ∙ success))
      ]
    ]
  ]

  -- An explicit credential decides alone: with an Authorization header the other two make no
  -- difference, and with an X-Harbor-Token the cookies make none.
  pub explicit_credential_decides :
      (k : Keyring o) (now : ℕ) (h : Headers)
      → authenticate_request o m db session_id k now h
        ≡ authenticate_request o m db session_id k now (deciding h)
  unfolding authenticate_request
  explicit_credential_decides k now h = ground arith
