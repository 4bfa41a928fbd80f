-- ===== src/Auth/Manager/Policy.antt =====
-- What the authorization hook decides, and when a later change of a setting can matter.
use duckdb_flock.Base.{
  is_space, ◌≡◌, ◌↔◌, ◌⊎◌, inl, inr, refl, ap, sym, ◌∙◌, Bool-cases, Bool, true, false, not, ◌&&◌,
  some, List, [], ◌∷◌, ◌++◌, Bytes, codes, bytes_eq, is_empty, to_lower, map, arith, if◌then◌else◌,
}
use duckdb_flock.Duckdb.{
  Database, StringUtil, IsStringUtil, varchar, QueryOutcome, cell_boolean, cell_of, setting_bool_or,
  evaluate_auth_query,
}
use duckdb_flock.Auth.Text.{is_builtin_nop_authz}
use duckdb_flock.Auth.Text.Normalize.{
  is_empty-append, is_builtin_nop_authz-qualified, is_builtin_nop_authz-case,
}
use duckdb_flock.Auth.Manager.{
  AuthManager, new_auth_manager, resolve, run_authorization, admin_prefix,
}

abbrev pub authz_sql : AuthManager → Bytes
authz_sql m = codes "SELECT " ++ m.authz_fn_name ++ codes "(?, ?)"

abbrev pub allows_admin : Database → Bool
allows_admin d = setting_bool_or d (codes "harbor_allow_admin_without_authz") false

gate :
    (admin custom allowed cell : Bool)
    → ((if admin && not custom && not allowed then false else cell) ≡ true)
      ↔ ((cell ≡ true) × ((admin ≡ false) ⊎ (custom ≡ true) ⊎ (allowed ≡ true)))
gate true true allowed cell = ground arith
gate true false true cell = ground arith
gate true false false cell = ground arith
gate false custom allowed cell = ground arith

cell_true :
    (d : Database) (sql : Bytes) (values : List Bytes)
    → (evaluate_auth_query d sql values ≡ true) ↔ (d.query sql values ≡ cell_boolean true)
unfolding evaluate_auth_query
cell_true d sql values = (of_outcome (d.query sql values), λ e. rw e refl)
  where
    of_outcome : (o : QueryOutcome) → cell_of o ≡ true → o ≡ cell_boolean true
    of_outcome (cell_boolean b) h = ap cell_boolean h
    of_outcome _ h = cc

-- A query is authorized exactly if the callback's cell is true and one of three holds: it is no
-- admin query, the manager has a custom callback, or the operator has opted in.
pub run_authorization_iff :
    (u : StringUtil) (m : AuthManager) (d : Database) (session_id query : Bytes)
    → (run_authorization u m (some d) session_id query ≡ true) ↔ (
        (d.query (authz_sql m) (session_id ∷ query ∷ []) ≡ cell_boolean true)
        × ((u.starts_with query admin_prefix ≡ false)
            ⊎ (m.has_custom_authz_fn ≡ true)
            ⊎ (allows_admin d ≡ true)))
unfolding run_authorization
run_authorization_iff u m d session_id query =
    let g =
      gate (u.starts_with query admin_prefix) m.has_custom_authz_fn (allows_admin d)
        (evaluate_auth_query d (authz_sql m) (session_id ∷ query ∷ [])) in
    let c = cell_true d (authz_sql m) (session_id ∷ query ∷ []) in
    (λ h. let (cell, open_gate) = g.0 h in (c.0 cell, open_gate), λ p. g.1 (c.1 p.0, p.1))

resolve_set :
    (db : Database) (alias default_name text : Bytes)
    → db.try_get_current_setting (codes "harbor_authorization_function") ≡ some (varchar text)
    → is_empty text ≡ false
    → resolve db (codes "harbor_authorization_function") alias default_name ≡ text
unfolding resolve
resolve_set db alias default_name text configured h = ground arith

denied :
    (u : StringUtil) (laws : IsStringUtil u) (m : AuthManager) (d : Database)
    (session_id action : Bytes)
    → m.has_custom_authz_fn ≡ false
    → allows_admin d ≡ false
    → run_authorization u m (some d) session_id (admin_prefix ++ action) ≡ false
denied u laws m d session_id action plain closed =
    no_pass (Bool-cases (run_authorization u m (some d) session_id (admin_prefix ++ action)))
  where
    no_pass :
        (run_authorization u m (some d) session_id (admin_prefix ++ action) ≡ true)
          ⊎ (run_authorization u m (some d) session_id (admin_prefix ++ action) ≡ false)
        → run_authorization u m (some d) session_id (admin_prefix ++ action) ≡ false
    no_pass (inr h) = h
    no_pass (inl h) = ground (
      arith,
      (run_authorization_iff u m d session_id (admin_prefix ++ action)).0 h,
      laws.starts_with_prefix admin_prefix action,
    )

builtin_nop : is_builtin_nop_authz (codes "harbor_nop_authorization") ≡ true
unfolding is_builtin_nop_authz bytes_eq is_space to_lower
builtin_nop = refl

-- The name alone, or behind a schema and a dot.
abbrev pub Names : Bytes → Bytes → Bytes → Type 0
Names text schema name = (text ≡ name) ⊎ (text ≡ schema ++ b'.' ∷ name)

builtin-Names :
    (text schema name : Bytes)
    → Names text schema name
    → map to_lower name ≡ codes "harbor_nop_authorization"
    → (is_empty text ≡ false) × (is_builtin_nop_authz text ≡ true)
builtin-Names text schema name named builtin = elim named [
  | inl e ↦ rw e (not_empty name builtin, plain)
  | inr e ↦
      rw e (is_empty-append schema name b'.', is_builtin_nop_authz-qualified schema name ∙ plain)
]
  where
    plain : is_builtin_nop_authz name ≡ true
    plain = sym (is_builtin_nop_authz-case name) ∙ ap is_builtin_nop_authz builtin ∙ builtin_nop

    not_empty : (s : Bytes) → map to_lower s ≡ codes "harbor_nop_authorization" → is_empty s ≡ false
    not_empty [] h = cc
    not_empty (c ∷ s) h = refl

-- If the setting harbor_authorization_function holds, when the server starts,
-- harbor_nop_authorization in any case of its letters, alone or behind a schema and a dot, then no
-- admin query passes as long as the operator has not opted in, whatever else the settings say by
-- then. This takes `StringUtil::StartsWith` to find what was put in front of a text.
pub admin_default_deny :
    (u : StringUtil) (laws : IsStringUtil u) (started : Database) (token : Bytes)
    (unauthenticated : Bool) (text schema name : Bytes) (d : Database) (session_id action : Bytes)
    → started.try_get_current_setting (codes "harbor_authorization_function") ≡ some (varchar text)
    → Names text schema name
    → map to_lower name ≡ codes "harbor_nop_authorization"
    → allows_admin d ≡ false
    → run_authorization u
        (new_auth_manager (some started) token unauthenticated)
        (some d)
        session_id
        (admin_prefix ++ action)
      ≡ false
admin_default_deny u laws started token unauthenticated text schema name d session_id action
      configured named builtin closed =
    let (filled, nop) = builtin-Names text schema name named builtin in
    denied u laws (new_auth_manager (some started) token unauthenticated) d session_id action
      (unfold new_auth_manager in rw (resolve_set started _ _ text configured filled) (ap not nop))
      closed
