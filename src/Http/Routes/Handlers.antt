-- ===== src/Http/Routes/Handlers.antt =====
-- What each handler does to the sessions, from its grounds on.
use duckdb_flock.Base.{
  ℕ, ◌≡◌, ◌⊎◌, refl, inl, inr, Bool, true, false, not, ◌&&◌, Option, none, some, [], Bytes,
  is_empty, Result, ok, err, if◌then◌else◌, &&-eq-true, Option-cases,
}
use duckdb_flock.Crypto.Base64Url.{CryptoError}
use duckdb_flock.Crypto.Openssl.{Openssl, principal_id_hex}
use duckdb_flock.Session.{
  SessionManager, SessionError, kept, create_owned_session, destroy_owned_session,
  interrupt_session, user_cancel, create_new_connection,
}
use duckdb_flock.Auth.Cookie.{Keyring}
use duckdb_flock.Auth.Manager.{run_authentication}
use duckdb_flock.Http.{HttpRequest, HttpResponse, read_bounded_body, extract_json_session_id}
use duckdb_flock.Http.Origin.{has_allowed_browser_origin_if_cookie}
use duckdb_flock.Http.Sql.{
  Environment, HandlerState, authenticate, is_authorized, answer_session, try_new_session,
  delete_session, cancel_session,
}
use duckdb_flock.Http.Sql.Admission.{Parser, Admitted, Reason, handle_sql}
use duckdb_flock.Http.Sql.Guarded.{Moment, run_statement, after_admission}
use duckdb_flock.Http.Quack.{QuackMessage, connection_request, disconnect_message, handle_message}
use duckdb_flock.Http.Admin.{
  admin_session_id, authz_checkpoint_create, interrupt_named, checkpoint_gates,
}
use duckdb_flock.Http.Auth.{login_session_id, login_with, Refusal, answer_login, destroy_on_logout}
use duckdb_flock.Http.Routes.{post_quack, post_logout}
use duckdb_flock.Http.Routes.Grounds.{Changed, InterruptsNamed, Guards, asks_to_destroy}

pub choose :
    {o : Openssl} {R : Type 0} (Q : HandlerState o → Type 0) (b : Bool) (x y : R × HandlerState o)
    → (b ≡ true → Q x.1)
    → (b ≡ false → Q y.1)
    → Q (if b then x else y).1
choose Q true x y h k = h refl
choose Q false x y h k = k refl

pub not-eq-false : (b : Bool) → not b ≡ false → b ≡ true
not-eq-false true h = refl
not-eq-false false h = cc

pub either_map : {A B C : Type 0} → (B → C) → A ⊎ B → A ⊎ C
either_map f (inl a) = inl a
either_map f (inr b) = inr (f b)

answer_session-changes :
    (o : Openssl) (e : Environment) (sid : Bytes) (res : HttpResponse) (st : HandlerState o)
    (r : Result SessionError SessionManager)
    → ((answer_session o e sid res st r).1.sessions ≡ st.sessions)
      ⊎ (r ≡ ok (answer_session o e sid res st r).1.sessions)
unfolding answer_session
answer_session-changes o e sid res st (ok s) = inr refl
answer_session-changes o e sid res st (err x) = inl refl

pub try_new_session-changes :
    (o : Openssl) (e : Environment) (generated : Result Bytes Bytes) (principal : Bytes)
    (res : HttpResponse) (st : HandlerState o)
    → ((try_new_session o e generated principal res st).1.sessions ≡ st.sessions)
      ⊎ ((sid : Bytes) × (generated ≡ ok sid)
          × (create_owned_session st.sessions e.db e.steady_now sid principal
              ≡ ok (try_new_session o e generated principal res st).1.sessions))
unfolding try_new_session
try_new_session-changes o e (err message) principal res st = inl refl
try_new_session-changes o e (ok sid) principal res st =
    either_map (λ h. (sid, refl, h))
      (answer_session-changes o e sid res st
        (create_owned_session st.sessions e.db e.steady_now sid principal))

pub delete_session-changes :
    (o : Openssl) (e : Environment) (sid principal : Bytes) (res : HttpResponse)
    (st : HandlerState o)
    → ((delete_session o e sid principal res st).1.sessions ≡ st.sessions)
      ⊎ ((delete_session o e sid principal res st).1.sessions
          ≡ (destroy_owned_session st.sessions sid principal).1)
unfolding delete_session
delete_session-changes o e sid principal res st =
    let Q = λ (s : HandlerState o).
      (s.sessions ≡ st.sessions)
      ⊎ (s.sessions ≡ (destroy_owned_session st.sessions sid principal).1) in
    choose Q (is_empty sid) _ _ (λ _. inl refl)
      (λ _.
        choose Q (not (destroy_owned_session st.sessions sid principal).0) _ _ (λ _. inr refl)
          (λ _. inr refl))

pub cancel_session-changes :
    (o : Openssl) (e : Environment) (limit : ℕ) (req : HttpRequest) (res : HttpResponse)
    (st : HandlerState o) (body : Option Bytes)
    → read_bounded_body limit [] req.chunks ≡ body
    → ((cancel_session o e body res st).1.sessions ≡ st.sessions)
      ⊎ InterruptsNamed limit req st.sessions (cancel_session o e body res st).1.sessions
unfolding cancel_session
cancel_session-changes o e limit req res st none read = inl refl
cancel_session-changes o e limit req res st (some body) read =
    let sid = extract_json_session_id body in
    let Q = λ (s : HandlerState o).
      (s.sessions ≡ st.sessions) ⊎ InterruptsNamed limit req st.sessions s.sessions in
    choose Q (is_empty sid) _ _ (λ _. inl refl)
      (λ named.
        choose Q (not (interrupt_session st.sessions sid user_cancel).0) _ _
          (λ _. inr (body, read, named, refl)) (λ _. inr (body, read, named, refl)))

pub interrupt_named-changes :
    (o : Openssl) (e : Environment) (limit : ℕ) (req : HttpRequest) (res : HttpResponse)
    (st : HandlerState o) (body : Option Bytes)
    → read_bounded_body limit [] req.chunks ≡ body
    → ((interrupt_named o e body res st).1.sessions ≡ st.sessions)
      ⊎ InterruptsNamed limit req st.sessions (interrupt_named o e body res st).1.sessions
unfolding interrupt_named
interrupt_named-changes o e limit req res st none read = inl refl
interrupt_named-changes o e limit req res st (some body) read =
    let sid = extract_json_session_id body in
    let Q = λ (s : HandlerState o).
      (s.sessions ≡ st.sessions) ⊎ InterruptsNamed limit req st.sessions s.sessions in
    choose Q (is_empty sid) _ _ (λ _. inl refl)
      (λ named.
        choose Q (not (interrupt_session st.sessions sid user_cancel).0) _ _
          (λ _. inr (body, read, named, refl)) (λ _. inr (body, read, named, refl)))

pub login_with-keeps :
    (o : Openssl) (e : Environment) (iso_utc : ℕ → Bytes) (req : HttpRequest) (res : HttpResponse)
    (st : HandlerState o) (r : Result Refusal Bytes)
    → (login_with o e iso_utc req res st r).1.sessions ≡ st.sessions
unfolding login_with
login_with-keeps o e iso_utc req res st (err x) = refl
login_with-keeps o e iso_utc req res st (ok token) =
    let Q = λ (s : HandlerState o). s.sessions ≡ st.sessions in
    choose Q (is_empty token) _ _ (λ _. refl)
      (λ _.
        choose Q (not (run_authentication e.auth e.db login_session_id token)) _ _ (λ _. refl)
          (λ _. answered _))
  where
    answered :
        (c : Option (Result CryptoError Bytes × Keyring o))
        → (answer_login o e iso_utc (principal_id_hex o token) req res st c).1.sessions
          ≡ st.sessions
    answered none = unfold answer_login in refl
    answered (some (err x, k)) = unfold answer_login in refl
    answered (some (ok v, k)) = unfold answer_login in refl

pub checkpoint-keeps :
    (o : Openssl) (e : Environment) (req : HttpRequest) (res : HttpResponse) (st : HandlerState o)
    → (checkpoint_gates o e req res st).1.sessions ≡ st.sessions
unfolding checkpoint_gates
checkpoint-keeps o e req res st =
    let Q = λ (s : HandlerState o). s.sessions ≡ st.sessions in
    let authn = (authenticate o e admin_session_id req st).0 in
    choose Q (not authn.success) _ _ (λ _. refl)
      (λ _.
        choose Q (not (has_allowed_browser_origin_if_cookie e.auth req authn.source)) _ _
          (λ _. refl)
          (λ _.
            choose Q (not (is_authorized o e admin_session_id authz_checkpoint_create)) _ _
              (λ _. refl) (λ _. refl)))

pub destroy_on_logout-changes :
    (o : Openssl) (e : Environment) (p : Parser) (req : HttpRequest) (st : HandlerState o)
    → ((destroy_on_logout o e req st).1.sessions ≡ st.sessions)
      ⊎ Changed o e p post_logout req st (destroy_on_logout o e req st).1.sessions
unfolding destroy_on_logout
destroy_on_logout-changes o e p req st =
    let Q = λ (s : HandlerState o).
      (s.sessions ≡ st.sessions) ⊎ Changed o e p post_logout req st s.sessions in
    let authn = (authenticate o e login_session_id req st).0 in
    choose Q (asks_to_destroy e req) _ _
      (λ asked.
        choose Q (authn.success && not (is_empty authn.principal_id)) _ _
          (λ a.
            inr ((&&-eq-true authn.success (not (is_empty authn.principal_id)) a).0, asked, refl))
          (λ _. inl refl))
      (λ _. inl refl)

pub after_admission-changes :
    (o : Openssl) (e : Environment) (p : Parser) (busy : ℕ → Bool) (at : Option Moment)
    (req : HttpRequest) (st st1 : HandlerState o) (r : Result Reason (Admitted p))
    → (handle_sql o e p req busy st).0 ≡ r
    → st1.sessions ≡ st.sessions
    → ((after_admission e at r st1).sessions ≡ st.sessions)
      ⊎ Guards o e p busy at req st (after_admission e at r st1).sessions
unfolding after_admission run_statement
after_admission-changes o e p busy at req st st1 (err x) admitted same = inl same
after_admission-changes o e p busy none req st st1 (ok a) admitted same = inl same
after_admission-changes o e p busy (some t) req st st1 (ok a) admitted same =
    elim (Option-cases a.session) [
      | inl none_there ↦ inl (rw none_there same)
      | inr (r, there) ↦ inr (a, admitted, r, there, t, refl, rw (there, same) refl)
    ]

gated :
    (m : SessionManager) (b : Bool) (r : Result SessionError SessionManager)
    → ((if b then kept m r else m) ≡ m) ⊎ ((b ≡ true) × (r ≡ ok (if b then kept m r else m)))
gated m true (ok n) = inr (refl, refl)
gated m true (err x) = inl refl
gated m false r = inl refl

pub handle_message-changes :
    (o : Openssl) (e : Environment) (p : Parser) (message : QuackMessage) (req : HttpRequest)
    (st : HandlerState o)
    → (handle_message e message st.sessions ≡ st.sessions)
      ⊎ Changed o e p (post_quack message) req st (handle_message e message st.sessions)
unfolding handle_message
handle_message-changes o e p (disconnect_message id) req st = inr refl
handle_message-changes o e p (connection_request id auth_string) req st =
    gated st.sessions (run_authentication e.auth e.db id auth_string)
      (create_new_connection st.sessions e.db e.steady_now id)
