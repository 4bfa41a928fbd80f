-- ===== src/Auth/Cors.antt =====
-- src/harbor_auth.cpp: the list of origins, `ValidateCorsOrigin`, `InitCorsConfig` and
-- `ResolveCorsOrigin`.
pub mod Allowed
use duckdb_flock.Base.{
  ℕ, suc, Bool, true, false, not, ◌&&◌, ◌||◌, Option, none, some, List, [], ◌∷◌, ◌++◌, Bytes, codes,
  bytes_eq, is_empty, starts_with, take, drop, Result, ok, err, ◌>>=◌, ◌>>◌, throw_if, ◌==◌,
  if◌then◌else◌,
}
use duckdb_flock.Duckdb.{StringUtil}
use duckdb_flock.Auth.Text.{find, trim_ascii}
use duckdb_flock.Auth.Manager.{
  AuthError, cors_wildcard, cors_empty, cors_no_scheme, cors_has_path, cors_bad_scheme,
}

abbrev pub scheme_separator : Bytes
scheme_separator = codes "://"

-- `origin.find("://")`.
unfoldable pub find_separator : Bytes → Option ℕ
find_separator [] = none
find_separator (c ∷ s) =
    if starts_with (c ∷ s) scheme_separator
    then some 0
    else elim (find_separator s) [ none ↦ none | some i ↦ some (suc i) ]

-- `rest.find(c) != npos`.
unfoldable pub has : ℕ → Bytes → Bool
unfolding find
has c s = elim (find c s) [ none ↦ false | some i ↦ true ]

unfoldable pub check_rest : Bytes → Bytes → Result AuthError (Unit {0})
unfolding has
check_rest scheme rest = do
  throw_if (is_empty rest || has b'/' rest || has b'?' rest || has b'#' rest) cors_has_path
  throw_if (not (bytes_eq scheme (codes "http")) && not (bytes_eq scheme (codes "https")))
      cors_bad_scheme

unfoldable pub validate_cors_origin : Bytes → Result AuthError (Unit {0})
validate_cors_origin [] = err cors_empty
validate_cors_origin (c ∷ s) = elim (find_separator (c ∷ s)) [
  | none ↦ err cors_no_scheme
  | some scheme_end ↦
      if scheme_end == 0
      then err cors_no_scheme
      else check_rest (take scheme_end (c ∷ s)) (drop (suc (suc (suc scheme_end))) (c ∷ s))
]

-- The loop over the parts, with what it has pushed when it throws or ends.
unfoldable pub add_origins : List Bytes → List Bytes → Result AuthError (Unit {0}) × List Bytes
add_origins allowed [] = (ok tt, allowed)
add_origins allowed (raw ∷ parts) =
    let entry = trim_ascii raw in
    let skipped = add_origins allowed parts in
    let pushed = add_origins (allowed ++ entry ∷ []) parts in
    if is_empty entry
    then skipped
    else elim (validate_cors_origin entry) [ err e ↦ (err e, allowed) | ok u ↦ pushed ]

-- The result, and `cors_allowed_origins` afterwards.
unfoldable pub init_cors_config : StringUtil → Bytes → Result AuthError (Unit {0}) × List Bytes
init_cors_config u setting =
    let trimmed = trim_ascii setting in
    if is_empty trimmed
    then (ok tt, [])
    else if bytes_eq trimmed (codes "*")
    then (err cors_wildcard, [])
    else add_origins [] (u.split trimmed (codes ","))

-- `none` where the origin is not allowed; else the value to send back.
search_origins : List Bytes → Bytes → Option Bytes
search_origins [] origin = none
search_origins (a ∷ allowed) origin =
    if bytes_eq origin a then some a else search_origins allowed origin

unfoldable pub resolve_cors_origin : List Bytes → Bytes → Option Bytes
unfolding search_origins
resolve_cors_origin allowed origin = if is_empty origin then none else search_origins allowed origin
