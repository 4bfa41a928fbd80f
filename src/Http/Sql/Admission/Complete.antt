-- ===== src/Http/Sql/Admission/Complete.antt =====
-- That `HandleSql` comes to its statement whenever its grounds hold.
use duckdb_flock.Base.{
  ℕ, ◌≡◌, ◌↔◌, refl, sym, ap, ◌∙◌, Bool, true, false, not, ◌&&◌, Option, none, some, [], ◌∷◌, Bytes,
  is_empty, Result, ok, throw_if, ◌>>=◌, if◌then◌else◌,
}
use duckdb_flock.Crypto.Openssl.{Openssl}
use duckdb_flock.Session.{SessionManager, is_some}
use duckdb_flock.Auth.Cookie.{AuthResult}
use duckdb_flock.Auth.Manager.{admin_prefix}
use duckdb_flock.Sql.Params.Request.{ParsedRequest}
use duckdb_flock.Http.{HttpRequest}
use duckdb_flock.Http.Origin.{is_cookie, has_allowed_browser_origin}
use duckdb_flock.Http.Sql.{Environment, HandlerState, authenticate, is_authorized, sql_session_id}
use duckdb_flock.Http.Sql.Admission.{
  Parser, Admitted, bad_syntax, map_err, read_request, resolve_session, single_statement,
  begins_transaction, ephemeral_transaction, admit, handle_parsed, handle_sql,
}
use duckdb_flock.Http.Sql.Admission.Sound.{Grounds, RunsIn, handle_sql-Grounds}

-- A chain goes on behind a result that is there.
>>=-ok :
    {E A B : Type 0} (r : Result E A) (a : A) (rest : A → Result E B) (z : Result E B)
    → r ≡ ok a
    → rest a ≡ z
    → (r >>= rest) ≡ z
>>=-ok r a rest z h k = rw h k

throw_if-false : {E : Type 0} (b : Bool) (x : E) → b ≡ false → throw_if b x ≡ ok tt
throw_if-false b x h = rw h refl

not-true : (b : Bool) → b ≡ true → not b ≡ false
not-true b h = rw h refl

resolves :
    (e : Environment) (sessions : SessionManager) (busy : ℕ → Bool) (principal : Bytes)
    (request : ParsedRequest) (s : Option ℕ)
    → RunsIn e sessions busy principal request s
    → (resolve_session sessions busy request.session_id principal ≡ ok s)
      × ((not (is_some s) && begins_transaction e.string_util request.sql) ≡ false)
unfolding resolve_session
resolves e sessions busy principal request none (h, k) = (rw h refl, k)
resolves e sessions busy principal request (some r) (h, k, l) = (rw (h, k, l) refl, refl)

admit_on_Grounds :
    (o : Openssl) (e : Environment) (p : Parser) (req : HttpRequest) (busy : ℕ → Bool)
    (authn : AuthResult) (sessions : SessionManager) (a : Admitted p)
    → Grounds o e p req busy authn sessions a
    → admit o e p req a.request busy authn sessions ≡ ok a
unfolding admit single_statement
admit_on_Grounds o e p req busy authn sessions a (h1, h2, h3, h4, h5, h6, h7) =
    let (resolved, h8) = resolves e sessions busy authn.principal_id a.request a.session h4 in
    >>=-ok (throw_if (not authn.success) _) tt _ _ (throw_if-false _ _ (not-true _ h1)) (
      >>=-ok
        (throw_if (is_cookie authn.source && not (has_allowed_browser_origin e.uri e.auth req)) _)
        tt _ _ (throw_if-false _ _ h3)
        (>>=-ok (resolve_session sessions busy a.request.session_id authn.principal_id) a.session _
          _ resolved
          (>>=-ok (throw_if (not (is_some e.db)) _) tt _ _ (throw_if-false _ _ (not-true _ h5)) (
            >>=-ok
              (throw_if
                (not (
                  is_authorized o e
                    (if is_empty a.request.session_id then sql_session_id else a.request.session_id)
                    a.request.sql))
                _)
              tt _ _ (throw_if-false _ _ (not-true _ h6))
              (>>=-ok (map_err (λ t. bad_syntax t) (p.extract_statements a.request.sql))
                (a.statement ∷ []) _ _ (ap (map_err (λ t. bad_syntax t)) h7)
                (>>=-ok
                  (throw_if
                    (not (is_some a.session) && begins_transaction e.string_util a.request.sql)
                    ephemeral_transaction)
                  tt _ _ (throw_if-false _ _ h8)
                  (ap (λ x. ok (record a { principal_id = x })) (sym h2))))))))

handle_parsed_on_Grounds :
    (o : Openssl) (e : Environment) (p : Parser) (req : HttpRequest) (busy : ℕ → Bool)
    (st : HandlerState o) (a : Admitted p)
    → Grounds o e p req busy (authenticate o e sql_session_id req st).0 st.sessions a
    → (handle_parsed o e p req busy st (ok a.request)).0 ≡ ok a
unfolding handle_parsed authenticate
handle_parsed_on_Grounds o e p req busy st a g =
    admit_on_Grounds o e p req busy (authenticate o e sql_session_id req st).0 st.sessions a g

-- A request comes through `HandleSql` to its statement exactly if its body is read, up to the limit, as
-- a request whose trimmed text does not begin with the prefix of admin queries; it is authenticated;
-- its origin is allowed if the credential is a cookie; it names no session, and its trimmed text does
-- not begin with BEGIN or START TRANSACTION in any case of the letters, or it names a session of its
-- principal that nobody else is in; the database is there; the authorization callback accepts its
-- text; and the text is a single statement. Then the statement, the session and the principal are
-- these. An ephemeral session may still open a transaction with a text that begins otherwise, as with
-- a comment.
pub handle_sql-Grounds_iff :
    (o : Openssl) (e : Environment) (p : Parser) (req : HttpRequest) (busy : ℕ → Bool)
    (st : HandlerState o) (a : Admitted p)
    → ((handle_sql o e p req busy st).0 ≡ ok a) ↔ (
        (read_request e.string_util e.db req ≡ ok a.request)
        × (e.string_util.starts_with (e.string_util.trim a.request.sql) admin_prefix ≡ false)
        × Grounds o e p req busy (authenticate o e sql_session_id req st).0 st.sessions a)
unfolding handle_sql
handle_sql-Grounds_iff o e p req busy st a = (
  handle_sql-Grounds o e p req busy st a,
  λ (read, _, grounds).
      ap (λ r. (handle_parsed o e p req busy st r).0) read
      ∙ handle_parsed_on_Grounds o e p req busy st a grounds,
)
