-- ===== src/Http/Auth/Login.antt =====
-- What a login gives: a cookie that stands for the token.
use duckdb_flock.Base.{
  ℕ, ◌+◌, ◌%◌, ◌^◌, ◌<◌, ◌≡◌, ◌≢◌, ◌≤◌, refl, sym, ap, ◌∙◌, Bool, true, false, not, Option, none,
  some, List, [], ◌∷◌, ◌++◌, Bytes, codes, is_empty, Result, ok, err, if◌then◌else◌, arith,
  Bool-cases, inl, inr, length, length-append, drop, get_or,
}
use mathlib.Core.Path.{Path}
use duckdb_flock.Crypto.Base64Url.{CryptoError}
use duckdb_flock.Crypto.Openssl.{Openssl, IsOpenssl, principal_id_hex}
use duckdb_flock.Duckdb.{Database, StringUtil}
use duckdb_flock.Auth.Manager.{AuthManager, run_authentication}
use duckdb_flock.Auth.Text.{extract_cookie}
use duckdb_flock.Auth.Cookie.{Keyring, accepted, cookie, issue_cookie, verify_cookie}
use duckdb_flock.Auth.Cookie.RoundTrip.{verify_cookie-issue_cookie}
use duckdb_flock.Auth.Request.{authenticate_request, try_cookie}
use duckdb_flock.Http.{HttpRequest, HttpResponse, json_response, set_header, apply_cors}
use duckdb_flock.Http.Sql.{Environment, HandlerState}
use duckdb_flock.Http.Auth.{
  Refusal, login_token, login_cookie, login_session_id, answer_login, login_with, handle_login,
  cookie_ttl_sec, write_json_error, request_is_behind_https,
}

-- `CookieTtlSec` is never 0, and never above the cap, whatever the setting is.
pub cookie_ttl_sec-bounds :
    (db : Option Database) → (0 < cookie_ttl_sec db) × (cookie_ttl_sec db ≤ 315576000)
unfolding cookie_ttl_sec
cookie_ttl_sec-bounds db = ground arith

login_token-refused :
    (u : StringUtil) (req : HttpRequest) (r : Refusal) → login_token u req ≡ err r → r.status ≢ 200
unfolding login_token
login_token-refused u req r h = ground arith

write_json_error-status :
    (n : ℕ) (c t : Bytes) (res : HttpResponse) → (write_json_error n c t res).status ≡ n
unfolding write_json_error json_response
write_json_error-status n c t res = refl

-- What a login with a token has done when it answers with 200.
abbrev Issued :
    (o : Openssl) (e : Environment)
    → HttpRequest
    → Bytes
    → HttpResponse
    → HandlerState o
    → HttpResponse
    → HandlerState o
    → Bytes
    → Type 0
Issued o e req token res st res' st' value =
    (is_empty token ≡ false)
    × (run_authentication e.auth e.db login_session_id token ≡ true)
    × (issue_cookie o st.keyring e.now (principal_id_hex o token) (cookie_ttl_sec e.db)
        ≡ some (ok value, st'.keyring))
    × (res'.headers
        ≡ res.headers
          ++ (
            codes "Set-Cookie",
            login_cookie value (cookie_ttl_sec e.db) (request_is_behind_https e.string_util req),
          )
            ∷ [])
    × (st'.sessions ≡ st.sessions)

abbrev headers_of : Option HttpResponse → List (Bytes × Bytes)
headers_of none = []
headers_of (some r) = r.headers

abbrev status_of : Option HttpResponse → ℕ
status_of none = 0
status_of (some r) = r.status

choose-true : {A : Type 0} (b : Bool) (x y v : A) → b ≡ true → (if b then x else y) ≡ v → x ≡ v
choose-true true x y v p h = h
choose-true false x y v p h = cc

choose-false : {A : Type 0} (b : Bool) (x y v : A) → b ≡ false → (if b then x else y) ≡ v → y ≡ v
choose-false true x y v p h = cc
choose-false false x y v p h = h

value-filled :
    (o : Openssl) (k : Keyring o) (later : ℕ) (value principal : Bytes)
    → verify_cookie o k later value ≡ (accepted principal cookie, k)
    → is_empty value ≡ false
unfolding verify_cookie
value-filled o k later [] principal h = sym (ap (λ p. p.0.success) h)
value-filled o k later (c ∷ value) principal h = refl

header-filled :
    (header value : Bytes)
    → extract_cookie header (codes "harbor_session") ≡ value
    → is_empty value ≡ false
    → is_empty header ≡ false
unfolding extract_cookie
header-filled [] value h k = ap is_empty h ∙ k
header-filled (c ∷ header) value h k = refl

cookie_authenticates :
    (o : Openssl) (m : AuthManager) (db : Option Database) (session_id : Bytes) (k : Keyring o)
    (later : ℕ) (header value principal : Bytes)
    → m.unauthenticated ≡ false
    → extract_cookie header (codes "harbor_session") ≡ value
    → verify_cookie o k later value ≡ (accepted principal cookie, k)
    → authenticate_request o m db session_id k later
        (record { authorization = []; x_harbor = []; cookies = header })
      ≡ (accepted principal cookie, k)
unfolding authenticate_request try_cookie
cookie_authenticates o m db session_id k later header value principal secured finds verified =
    let seen = value-filled o k later value principal verified in
    rw (secured, header-filled header value finds seen, finds, seen) verified

answer_login-issued :
    (o : Openssl) (e : Environment) (iso_utc : ℕ → Bytes) (principal : Bytes) (req : HttpRequest)
    (res : HttpResponse) (st : HandlerState o)
    (cookie : Option (Result CryptoError Bytes × Keyring o)) (res' : HttpResponse)
    (st' : HandlerState o)
    → answer_login o e iso_utc principal req res st cookie ≡ (some res', st')
    → (value : Bytes) × (cookie ≡ some (ok value, st'.keyring))
      × (res'.headers
          ≡ res.headers
            ++ (
              codes "Set-Cookie",
              login_cookie value (cookie_ttl_sec e.db) (request_is_behind_https e.string_util req),
            )
              ∷ [])
      × (st'.sessions ≡ st.sessions)
unfolding answer_login set_header json_response
answer_login-issued o e iso_utc principal req res st none res' st' h = cc
answer_login-issued o e iso_utc principal req res st (some (err x, k)) res' st' h = cc
answer_login-issued o e iso_utc principal req res st (some (ok value, k)) res' st' h = (
  value,
  ap (λ p. some (ok value, p.1.keyring)) h,
  sym (ap (λ p. headers_of p.0) h),
  sym (ap (λ p. p.1.sessions) h),
)

login_with-Issued :
    (o : Openssl) (e : Environment) (iso_utc : ℕ → Bytes) (req : HttpRequest) (res : HttpResponse)
    (st : HandlerState o) (r : Result Refusal Bytes) (res' : HttpResponse) (st' : HandlerState o)
    → ((x : Refusal) → r ≡ err x → x.status ≢ 200)
    → login_with o e iso_utc req res st r ≡ (some res', st')
    → res'.status ≡ 200
    → (token value : Bytes) × (r ≡ ok token) × Issued o e req token res st res' st' value
unfolding login_with write_json_error json_response
login_with-Issued o e iso_utc req res st (err x) res' st' refuses h s = absurd (
    refuses x refl (
      sym (write_json_error-status x.status x.error_code x.message res)
      ∙ ap (λ p. status_of p.0) h
      ∙ s))
login_with-Issued o e iso_utc req res st (ok token) res' st' refuses h s =
    elim (Bool-cases (is_empty token)) [
      | inl b ↦
          differs 400 (omega arith) (other 400 _ refl (choose-true (is_empty token) _ _ _ b h))
      | inr b ↦ elim (Bool-cases (run_authentication e.auth e.db login_session_id token)) [
        | inl a ↦
            let (value, issued, headers, kept) =
              answer_login-issued o e iso_utc (principal_id_hex o token) req res st _ res' st' (
                choose-false (not (run_authentication e.auth e.db login_session_id token)) _ _ _
                  (ap not a) (choose-false (is_empty token) _ _ _ b h)) in
            (token, value, refl, (b, a, issued, headers, kept))
        | inr a ↦ differs 401 (omega arith) (
            other 401 _ refl (
              choose-true (not (run_authentication e.auth e.db login_session_id token)) _ _ _
                (ap not a) (choose-false (is_empty token) _ _ _ b h)))
      ]
    ]
  where
    differs : {A : Type 0} (n : ℕ) → n ≢ 200 → n ≡ 200 → A
    differs n k p = absurd (k p)

    other :
        (n : ℕ) (r : HttpResponse)
        → r.status ≡ n
        → Path (Option HttpResponse × HandlerState o) (some r, st) (some res', st')
        → n ≡ 200
    other n r p k = sym p ∙ ap (λ q. status_of q.0) k ∙ s

-- What a response of a login has for headers, with a cookie value.
abbrev pub Sets : Environment → HttpRequest → HttpResponse → HttpResponse → Bytes → Type 0
Sets e req res res' value =
    res'.headers
    ≡ (apply_cors e.auth req res).headers
      ++ (
        codes "Set-Cookie",
        login_cookie value (cookie_ttl_sec e.db) (request_is_behind_https e.string_util req),
      )
        ∷ []

append_cancel : (xs ys s : Bytes) → xs ++ s ≡ ys ++ s → xs ≡ ys
append_cancel [] [] s h = refl
append_cancel [] (y ∷ ys) s h = let k = ap length h in absurd (omega (arith, length-append ys s))
append_cancel (x ∷ xs) [] s h = let k = ap length h in absurd (omega (arith, length-append xs s))
append_cancel (x ∷ xs) (y ∷ ys) s h =
    let rest = append_cancel xs ys s (ap (drop 1) h) in
    let first = ap (λ l. get_or l 0 0) h in ground arith

last_eq : {A : Type 0} (l : List A) (x y : A) → l ++ x ∷ [] ≡ l ++ y ∷ [] → x ≡ y
last_eq [] x y h = ap (λ l. get_or l 0 x) h
last_eq (a ∷ l) x y h = last_eq l x y (ap (drop 1) h)

login_cookie-eq :
    (v w : Bytes) (ttl_s : ℕ) (secure : Bool)
    → login_cookie v ttl_s secure ≡ login_cookie w ttl_s secure
    → v ≡ w
unfolding login_cookie
login_cookie-eq v w ttl_s secure h = append_cancel v w _ (ap (drop 15) h)

Sets-eq :
    (e : Environment) (req : HttpRequest) (res res' : HttpResponse) (v w : Bytes)
    → Sets e req res res' v
    → Sets e req res res' w
    → v ≡ w
Sets-eq e req res res' v w h k =
    login_cookie-eq v w (cookie_ttl_sec e.db) (request_is_behind_https e.string_util req)
      (ap (λ p. p.1) (last_eq (apply_cors e.auth req res).headers _ _ (sym h ∙ k)))

-- A login that is answered with 200 sets a cookie that stands for the token from then on: with a
-- `Cookie` header in which `ExtractCookie` finds the value that was set, and no explicit credential, a
-- request is authenticated, up to the time of expiry, as the principal of the token that the login
-- found and that the callback accepted. No session was touched. This takes a server with a token, and
-- an OpenSSL that does what its manual says.
pub handle_login-authenticates :
    (o : Openssl) (laws : IsOpenssl o) (e : Environment) (iso_utc : ℕ → Bytes) (req : HttpRequest)
    (res : HttpResponse) (st : HandlerState o) (res' : HttpResponse) (st' : HandlerState o)
    (db : Option Database) (session_id value header : Bytes) (later : ℕ)
    → e.auth.unauthenticated ≡ false
    → handle_login o e iso_utc req res st ≡ (some res', st')
    → res'.status ≡ 200
    → Sets e req res res' value
    → extract_cookie header (codes "harbor_session") ≡ value
    → later < (e.now + cookie_ttl_sec e.db) % 2 ^ 64
    → (token : Bytes) × (login_token e.string_util req ≡ ok token)
      × (run_authentication e.auth e.db login_session_id token ≡ true)
      × (st'.sessions ≡ st.sessions)
      × (authenticate_request o e.auth db session_id st'.keyring later
            (record { authorization = []; x_harbor = []; cookies = header })
          ≡ (accepted (principal_id_hex o token) cookie, st'.keyring))
unfolding handle_login
handle_login-authenticates o laws e iso_utc req res st res' st' db session_id value header later
      secured h s sets finds live =
    let (token, made, found, (_, accepts, issued, headers, kept)) =
      login_with-Issued o e iso_utc req (apply_cors e.auth req res) st
        (login_token e.string_util req) res' st' (login_token-refused e.string_util req) h s in
    (
      token,
      found,
      accepts,
      kept,
      cookie_authenticates o e.auth db session_id st'.keyring later header made
          (principal_id_hex o token) secured
          (finds ∙ Sets-eq e req res res' value made sets headers)
          (verify_cookie-issue_cookie o laws st.keyring st'.keyring e.now (cookie_ttl_sec e.db)
            later (principal_id_hex o token) made issued live),
    )
