-- ===== src/Auth/Cors/Allowed.antt =====
-- Only well-formed http and https origins are ever sent back.
use duckdb_flock.Base.{
  ℕ, suc, ◌≡◌, ◌≢◌, ◌⊎◌, inl, inr, refl, sym, ap, ◌∙◌, true, false, some, List, [], ◌∷◌, ◌++◌,
  Bytes, codes, bytes_eq, bytes_eq→eq, is_empty, starts_with, take, drop, length, ok, arith, All,
  All-append, Bool-cases, Option-cases, Result-cases,
}
use mathlib.Core.Path.{subst}
use duckdb_flock.Duckdb.{StringUtil}
use duckdb_flock.Auth.Text.{find, trim_ascii}
use duckdb_flock.Auth.Cors.{
  scheme_separator, find_separator, has, check_rest, validate_cors_origin, add_origins,
  init_cors_config, search_origins, resolve_cors_origin,
}

-- A scheme, "://" and a host with an optional port: no path, no query, no fragment.
pub record IsOrigin (origin : Bytes) : Type 0 where
  pub scheme : Bytes
  pub rest : Bytes
  pub parts : origin ≡ scheme ++ (scheme_separator ++ rest)
  pub web : (scheme ≡ codes "http") ⊎ (scheme ≡ codes "https")
  pub nonempty : rest ≢ []
  pub plain : All (λ c. (c ≢ b'/') × (c ≢ b'?') × (c ≢ b'#')) rest

has_none :
    (s : Bytes)
    → has b'/' s ≡ false
    → has b'?' s ≡ false
    → has b'#' s ≡ false
    → All (λ c. (c ≢ b'/') × (c ≢ b'?') × (c ≢ b'#')) s
unfolding has find
has_none [] h i j = tt
has_none (c ∷ s) h i j = ground (arith, has_none s)

starts_with_split : (s p : Bytes) → starts_with s p ≡ true → s ≡ p ++ drop (length p) s
unfolding starts_with
starts_with_split s [] h = refl
starts_with_split [] (d ∷ p) h = cc
starts_with_split (c ∷ s) (d ∷ p) h = ground (arith, starts_with_split s p)

abbrev SplitsAt : Bytes → ℕ → Type 0
SplitsAt s i = s ≡ take i s ++ (scheme_separator ++ drop (suc (suc (suc i))) s)

find_separator_split : (s : Bytes) (i : ℕ) → find_separator s ≡ some i → SplitsAt s i
unfolding find_separator
find_separator_split [] i h = cc
find_separator_split (c ∷ s) i h = elim (Bool-cases (starts_with (c ∷ s) scheme_separator)) [
  | inl e ↦
      let first : 0 ≡ i = ground arith in
      subst (SplitsAt (c ∷ s)) first (starts_with_split (c ∷ s) scheme_separator e)
  | inr e ↦ elim (Option-cases (find_separator s)) [
    | inl n ↦ absurd (ground arith)
    | inr (j, f) ↦
        let later : suc j ≡ i = ground arith in
        subst (SplitsAt (c ∷ s)) later (ap (λ t. c ∷ t) (find_separator_split s j f))
  ]
]

nonempty : (s : Bytes) → is_empty s ≡ false → s ≢ []
nonempty [] h = cc
nonempty (c ∷ s) h = λ e. cc

check_rest_facts :
    (scheme rest : Bytes)
    → check_rest scheme rest ≡ ok tt
    → ((scheme ≡ codes "http") ⊎ (scheme ≡ codes "https"))
      × (is_empty rest ≡ false)
      × (has b'/' rest ≡ false)
      × (has b'?' rest ≡ false)
      × (has b'#' rest ≡ false)
unfolding check_rest
check_rest_facts scheme rest h = (
  elim (Bool-cases (bytes_eq scheme (codes "http"))) [
    | inl e ↦ inl (bytes_eq→eq scheme _ e)
    | inr e ↦ inr (bytes_eq→eq scheme _ (ground arith))
  ],
  ground arith,
  ground arith,
  ground arith,
  ground arith,
)

check_rest_sound :
    (origin scheme rest : Bytes)
    → origin ≡ scheme ++ (scheme_separator ++ rest)
    → check_rest scheme rest ≡ ok tt
    → IsOrigin origin
check_rest_sound origin scheme rest parts h =
    let facts = check_rest_facts scheme rest h in
    record {
      scheme = scheme;
      rest = rest;
      parts = parts;
      web = facts.0;
      nonempty = nonempty rest facts.1;
      plain = has_none rest facts.2 facts.3 facts.4;
    }

validate_cors_origin_sound :
    (origin : Bytes) → validate_cors_origin origin ≡ ok tt → IsOrigin origin
unfolding validate_cors_origin
validate_cors_origin_sound [] h = absurd (ground arith)
validate_cors_origin_sound (c ∷ s) h = elim (Option-cases (find_separator (c ∷ s))) [
  | inl e ↦ absurd (ground arith)
  | inr (i, e) ↦
      check_rest_sound (c ∷ s) (take i (c ∷ s)) (drop (suc (suc (suc i))) (c ∷ s))
        (find_separator_split (c ∷ s) i e) (ground arith)
]

add_origins_sound :
    (parts allowed : List Bytes) → All IsOrigin allowed → All IsOrigin (add_origins allowed parts).1
unfolding add_origins
add_origins_sound [] allowed h = h
add_origins_sound (raw ∷ parts) allowed h = elim (Bool-cases (is_empty (trim_ascii raw))) [
  | inl e ↦ rw e (add_origins_sound parts allowed h)
  | inr e ↦ elim (Result-cases (validate_cors_origin (trim_ascii raw))) [
    | inr (c, f) ↦ rw (e, f) h
    | inl (u, f) ↦
        rw (e, f)
          (add_origins_sound parts (allowed ++ trim_ascii raw ∷ [])
            (All-append IsOrigin allowed _ h (validate_cors_origin_sound (trim_ascii raw) f, tt)))
  ]
]

init_sound : (u : StringUtil) (setting : Bytes) → All IsOrigin (init_cors_config u setting).1
unfolding init_cors_config
init_sound u setting = elim (Bool-cases (is_empty (trim_ascii setting))) [
  | inl e ↦ rw e tt
  | inr e ↦ elim (Bool-cases (bytes_eq (trim_ascii setting) (codes "*"))) [
    | inl f ↦ rw (e, f) tt
    | inr f ↦ rw (e, f) (add_origins_sound (u.split (trim_ascii setting) (codes ",")) [] tt)
  ]
]

search_sound :
    (allowed : List Bytes) (origin a : Bytes)
    → All IsOrigin allowed
    → search_origins allowed origin ≡ some a
    → (a ≡ origin) × IsOrigin origin
unfolding search_origins
search_sound [] origin a w h = absurd (ground arith)
search_sound (b ∷ allowed) origin a w h = elim (Bool-cases (bytes_eq origin b)) [
  | inl e ↦
      let same = bytes_eq→eq origin b e in
      let found : b ≡ a = ground arith in (sym found ∙ sym same, subst IsOrigin (sym same) w.0)
  | inr e ↦ search_sound allowed origin a w.1 (ground arith)
]

-- Whatever the setting, an origin is allowed only if it is a scheme http or https, "://" and a host
-- without path, query or fragment; and what is sent back is the request's own origin. So it is
-- never a wildcard.
pub resolve_cors_origin_sound :
    (u : StringUtil) (setting origin a : Bytes)
    → resolve_cors_origin (init_cors_config u setting).1 origin ≡ some a
    → (a ≡ origin) × IsOrigin origin
unfolding resolve_cors_origin
resolve_cors_origin_sound u setting origin a h =
    search_sound (init_cors_config u setting).1 origin a (init_sound u setting) (ground arith)
