-- ===== src/Http/Sql/Admission/Sound.antt =====
-- What `HandleSql` has checked when it comes to prepare a statement.
use duckdb_flock.Base.{
  ℕ, ◌≡◌, refl, sym, ap, ◌∙◌, Bool, true, false, not, ◌&&◌, Option, none, some, List, [], ◌∷◌,
  Bytes, codes, is_empty, Result, ok, err, throw_if, or_throw, if◌then◌else◌, >>=-eq-ok, arith,
}
use mathlib.Core.Path.{subst, Path}
use duckdb_flock.Crypto.Openssl.{Openssl}
use duckdb_flock.Session.{SessionManager, lookup_owned_session, is_some}
use duckdb_flock.Auth.Cookie.{AuthResult}
use duckdb_flock.Auth.Manager.{admin_prefix}
use duckdb_flock.Sql.Params.Request.{ParsedRequest, parse_request}
use duckdb_flock.Http.{
  HttpRequest, is_json_content_type, read_ubigint_setting, default_max_body_bytes,
  read_bounded_body,
}
use duckdb_flock.Http.Origin.{is_cookie, has_allowed_browser_origin}
use duckdb_flock.Http.Sql.{Environment, HandlerState, authenticate, is_authorized, sql_session_id}
use duckdb_flock.Http.Sql.Admission.{
  Parser, Reason, Admitted, bad_syntax, map_err, read_request, resolve_session, single_statement,
  begins_transaction, malformed, body_too_large, with_header_session, admit, handle_parsed,
  handle_sql,
}

throw_if-ok : {E : Type 0} (b : Bool) (x : E) (u : Unit {0}) → throw_if b x ≡ ok u → b ≡ false
throw_if-ok true x u h = cc
throw_if-ok false x u h = refl

-- The session that a request runs in: an ephemeral one if it names none and its trimmed text does not
-- begin with BEGIN or START TRANSACTION, else the principal's own of that name, and nobody else is in
-- it.
abbrev pub RunsIn :
    Environment → SessionManager → (ℕ → Bool) → Bytes → ParsedRequest → Option ℕ → Type 0
RunsIn e sessions busy principal request none =
    (is_empty request.session_id ≡ true) × (begins_transaction e.string_util request.sql ≡ false)
RunsIn e sessions busy principal request (some r) =
    (is_empty request.session_id ≡ false)
    × (lookup_owned_session sessions request.session_id principal ≡ some r)
    × (busy r ≡ false)

-- What `admit` asks for.
abbrev pub Grounds :
    (o : Openssl) (e : Environment) (p : Parser)
    → HttpRequest
    → (ℕ → Bool)
    → AuthResult
    → SessionManager
    → Admitted p
    → Type 0
Grounds o e p req busy authn sessions a =
    (authn.success ≡ true)
    × (a.principal_id ≡ authn.principal_id)
    × ((is_cookie authn.source && not (has_allowed_browser_origin e.uri e.auth req)) ≡ false)
    × RunsIn e sessions busy authn.principal_id a.request a.session
    × (is_some e.db ≡ true)
    × (is_authorized o e
          (if is_empty a.request.session_id then sql_session_id else a.request.session_id)
          a.request.sql
        ≡ true)
    × (p.extract_statements a.request.sql ≡ ok (a.statement ∷ []))

resolve_session-runs :
    (e : Environment) (sessions : SessionManager) (busy : ℕ → Bool) (principal : Bytes)
    (request : ParsedRequest) (s : Option ℕ)
    → resolve_session sessions busy request.session_id principal ≡ ok s
    → (not (is_some s) && begins_transaction e.string_util request.sql) ≡ false
    → RunsIn e sessions busy principal request s
unfolding resolve_session
resolve_session-runs e sessions busy principal request none h k = ground arith
resolve_session-runs e sessions busy principal request (some r) h k = ground arith

single_statement-ok : {A : Type 0} (l : List A) (a : A) → single_statement l ≡ ok a → l ≡ a ∷ []
unfolding single_statement
single_statement-ok [] a h = cc
single_statement-ok (s ∷ []) a h = ground arith
single_statement-ok (s ∷ t ∷ l) a h = cc

not-eq-false : (b : Bool) → not b ≡ false → b ≡ true
not-eq-false true h = refl
not-eq-false false h = cc

ok-eq : {E A : Type 0} (a b : A) → Path (Result E A) (ok a) (ok b) → a ≡ b
ok-eq a b h = ground arith

map_err-ok : {E F A : Type 0} (f : E → F) (r : Result E A) (a : A) → map_err f r ≡ ok a → r ≡ ok a
map_err-ok f (ok b) a h = ap (λ x. ok x) (ok-eq b a h)
map_err-ok f (err x) a h = cc

admit-assemble :
    (o : Openssl) (e : Environment) (p : Parser) (req : HttpRequest) (parsed : ParsedRequest)
    (busy : ℕ → Bool) (authn : AuthResult) (sessions : SessionManager) (s : Option ℕ)
    (statement : p.Statement) (a : Admitted p)
    → authn.success ≡ true
    → (is_cookie authn.source && not (has_allowed_browser_origin e.uri e.auth req)) ≡ false
    → RunsIn e sessions busy authn.principal_id parsed s
    → is_some e.db ≡ true
    → is_authorized o e
        (if is_empty parsed.session_id then sql_session_id else parsed.session_id)
        parsed.sql
      ≡ true
    → p.extract_statements parsed.sql ≡ ok (statement ∷ [])
    → record {
      request = parsed;
      principal_id = authn.principal_id;
      session = s;
      statement = statement;
    }
      ≡ a
    → (a.request ≡ parsed) × Grounds o e p req busy authn sessions a
admit-assemble o e p req parsed busy authn sessions s statement a h1 h2 h3 h4 h5 h6 h7 =
    subst (λ b. (b.request ≡ parsed) × Grounds o e p req busy authn sessions b) h7
      (refl, (h1, refl, h2, h3, h4, h5, h6))

admit-Grounds :
    (o : Openssl) (e : Environment) (p : Parser) (req : HttpRequest) (parsed : ParsedRequest)
    (busy : ℕ → Bool) (authn : AuthResult) (sessions : SessionManager) (a : Admitted p)
    → admit o e p req parsed busy authn sessions ≡ ok a
    → (a.request ≡ parsed) × Grounds o e p req busy authn sessions a
unfolding admit
admit-Grounds o e p req parsed busy authn sessions a h =
    let (_, h1, e1) = >>=-eq-ok (throw_if (not authn.success) _) _ h in
    let (_, h2, e2) =
      >>=-eq-ok
        (throw_if (is_cookie authn.source && not (has_allowed_browser_origin e.uri e.auth req)) _) _
        e1 in
    let (s, h3, e3) =
      >>=-eq-ok (resolve_session sessions busy parsed.session_id authn.principal_id) _ e2 in
    let (_, h4, e4) = >>=-eq-ok (throw_if (not (is_some e.db)) _) _ e3 in
    let query =
      is_authorized o e (if is_empty parsed.session_id then sql_session_id else parsed.session_id)
        parsed.sql in
    let (_, h5, e5) = >>=-eq-ok (throw_if (not query) _) _ e4 in
    let (l, h6, e6) =
      >>=-eq-ok (map_err (λ t. bad_syntax t) (p.extract_statements parsed.sql)) _ e5 in
    let (one, h7, e7) = >>=-eq-ok (single_statement l) _ e6 in
    let (_, h8, e8) =
      >>=-eq-ok (throw_if (not (is_some s) && begins_transaction e.string_util parsed.sql) _) _
        e7 in
    let runs =
      resolve_session-runs e sessions busy authn.principal_id parsed s h3 (throw_if-ok _ _ _ h8) in
    admit-assemble o e p req parsed busy authn sessions s one a
      (not-eq-false _ (throw_if-ok _ _ _ h1)) (throw_if-ok _ _ _ h2) runs
      (not-eq-false _ (throw_if-ok _ _ _ h4)) (not-eq-false _ (throw_if-ok _ _ _ h5))
      (map_err-ok _ _ _ h6 ∙ ap (λ x. ok x) (single_statement-ok l one h7)) (ok-eq _ _ e8)

with_header_session-sql :
    (req : HttpRequest) (r : ParsedRequest) → (with_header_session req r).sql ≡ r.sql
unfolding with_header_session
with_header_session-sql req r = ground arith

-- What was read does not begin with the prefix of admin queries.
read_request-prefix :
    (e : Environment) (req : HttpRequest) (parsed : ParsedRequest)
    → read_request e.string_util e.db req ≡ ok parsed
    → e.string_util.starts_with (e.string_util.trim parsed.sql) admin_prefix ≡ false
unfolding read_request
read_request-prefix e req parsed h =
    let (_, _, e1) =
      >>=-eq-ok (throw_if (not (is_json_content_type e.string_util req.content_type)) _) _ h in
    let limit =
      read_ubigint_setting e.db (codes "harbor_max_request_body_bytes") default_max_body_bytes in
    let (body, _, e2) =
      >>=-eq-ok (or_throw (read_bounded_body limit [] req.chunks) body_too_large) _ e1 in
    let (r, _, e3) = >>=-eq-ok (map_err (λ x. malformed x) (parse_request body)) _ e2 in
    let (_, h4, e4) =
      >>=-eq-ok (throw_if (e.string_util.starts_with (e.string_util.trim r.sql) admin_prefix) _) _
        e3 in
    subst (λ s. e.string_util.starts_with (e.string_util.trim s) admin_prefix ≡ false)
      (sym (with_header_session-sql req r) ∙ ap (λ x. x.sql) (ok-eq _ _ e4)) (throw_if-ok _ _ _ h4)

handle_parsed-Grounds :
    (o : Openssl) (e : Environment) (p : Parser) (req : HttpRequest) (busy : ℕ → Bool)
    (st : HandlerState o) (r : Result Reason ParsedRequest) (a : Admitted p)
    → (handle_parsed o e p req busy st r).0 ≡ ok a
    → (r ≡ ok a.request)
      × Grounds o e p req busy (authenticate o e sql_session_id req st).0 st.sessions a
unfolding handle_parsed authenticate
handle_parsed-Grounds o e p req busy st (ok parsed) a k =
    let (same, grounds) =
      admit-Grounds o e p req parsed busy (authenticate o e sql_session_id req st).0 st.sessions a
        k in
    (ap (λ x. ok x) (sym same), grounds)
handle_parsed-Grounds o e p req busy st (err x) a k = cc

handle_parsed-keeps :
    (o : Openssl) (e : Environment) (p : Parser) (req : HttpRequest) (busy : ℕ → Bool)
    (st : HandlerState o) (r : Result Reason ParsedRequest)
    → (handle_parsed o e p req busy st r).1.sessions ≡ st.sessions
unfolding handle_parsed authenticate
handle_parsed-keeps o e p req busy st (ok parsed) = refl
handle_parsed-keeps o e p req busy st (err x) = refl

-- Up to the statement no session is changed.
pub handle_sql-keeps :
    (o : Openssl) (e : Environment) (p : Parser) (req : HttpRequest) (busy : ℕ → Bool)
    (st : HandlerState o)
    → (handle_sql o e p req busy st).1.sessions ≡ st.sessions
unfolding handle_sql
handle_sql-keeps o e p req busy st =
    handle_parsed-keeps o e p req busy st (read_request e.string_util e.db req)

-- What has held when `HandleSql` comes to its statement.
pub handle_sql-Grounds :
    (o : Openssl) (e : Environment) (p : Parser) (req : HttpRequest) (busy : ℕ → Bool)
    (st : HandlerState o) (a : Admitted p)
    → (handle_sql o e p req busy st).0 ≡ ok a
    → (read_request e.string_util e.db req ≡ ok a.request)
      × (e.string_util.starts_with (e.string_util.trim a.request.sql) admin_prefix ≡ false)
      × Grounds o e p req busy (authenticate o e sql_session_id req st).0 st.sessions a
unfolding handle_sql
handle_sql-Grounds o e p req busy st a h =
    let (read, checked) =
      handle_parsed-Grounds o e p req busy st (read_request e.string_util e.db req) a h in
    (read, read_request-prefix e req a.request read, checked)
