-- ===== src/Auth/Text.antt =====
-- src/harbor_auth.cpp: the helpers on texts that headers and settings go through.
pub mod CookieHeader
pub mod Normalize
use duckdb_flock.Base.{
  ℕ, zero, suc, ◌+◌, ◌-◌, ◌<◌, Bool, true, false, not, ◌||◌, Option, none, some, List, [], ◌∷◌,
  Bytes, codes, bytes_eq, is_empty, is_space, to_lower, take, drop, length, ◌==◌, ltb,
  if◌then◌else◌,
}

-- `while (start < s.size() && isspace(s[start])) ++start`: what is left of the text.
unfoldable pub skip_spaces : Bytes → Bytes
skip_spaces [] = []
skip_spaces (c ∷ s) = let rest = skip_spaces s in if is_space c then rest else c ∷ s

unfoldable pub drop_spaces_end : Bytes → Bytes
drop_spaces_end [] = []
drop_spaces_end (c ∷ s) = keep c (drop_spaces_end s)
  where
    keep : ℕ → Bytes → Bytes
    keep d [] = if is_space d then [] else d ∷ []
    keep d (e ∷ r) = d ∷ e ∷ r

unfoldable pub trim_ascii : Bytes → Bytes
unfolding skip_spaces drop_spaces_end
trim_ascii s = drop_spaces_end (skip_spaces s)

-- `s.find(c)`.
unfoldable pub find : ℕ → Bytes → Option ℕ
find c [] = none
find c (d ∷ s) = if d == c then some 0 else elim (find c s) [ none ↦ none | some i ↦ some (suc i) ]

-- `s.rfind(c)`.
unfoldable pub rfind : ℕ → Bytes → Option ℕ
rfind c [] = none
rfind c (d ∷ s) = elim (rfind c s) [
  | some i ↦ some (suc i)
  | none ↦ if d == c then some 0 else none
]

-- How a round of the loop of `ExtractCookie` ends: `return`, `break`, or on behind a semicolon.
pub data Round : Type 0 where
  found : Bytes → Round
  stop : Round
  next : Bytes → Round

-- The round at the text from `pos` on, where that does not begin with white space.
unfoldable pub cookie_round : Bytes → Bytes → Round
unfolding find
cookie_round name s = elim (find b'=' s) [
  | none ↦ stop
  | some eq ↦ elim (find b';' s) [
    | none ↦ if bytes_eq (take eq s) name then found (drop (suc eq) s) else stop
    | some semi ↦
        if ltb semi eq
        then stop
        else if bytes_eq (take eq s) name
        then found (take (semi - suc eq) (drop (suc eq) s))
        else next (drop (suc semi) s)
  ]
]

-- The loop, over the text from `pos` on. A round that goes on has passed a semicolon, so the
-- length of the text is fuel enough.
unfoldable pub extract_cookie_loop : ℕ → Bytes → Bytes → Bytes
unfolding skip_spaces cookie_round
extract_cookie_loop zero name rest = []
extract_cookie_loop (suc fuel) name [] = []
extract_cookie_loop (suc fuel) name (c ∷ rest) = elim (cookie_round name (skip_spaces (c ∷ rest))) [
  | found value ↦ value
  | stop ↦ []
  | next s ↦ extract_cookie_loop fuel name s
]

unfoldable pub extract_cookie : Bytes → Bytes → Bytes
unfolding extract_cookie_loop
extract_cookie header name =
    if is_empty header || is_empty name
    then []
    else extract_cookie_loop (suc (length header)) name header

-- The name without white space and in lower case.
unfoldable pub normalized : Bytes → Bytes
normalized [] = []
normalized (c ∷ s) = let rest = normalized s in if is_space c then rest else to_lower c ∷ rest

-- What stands behind the last dot.
unfoldable pub unqualified : Bytes → Bytes
unfolding rfind
unqualified s = elim (rfind b'.' s) [ none ↦ s | some dot ↦ drop (suc dot) s ]

unfoldable pub is_builtin_nop_authz : Bytes → Bool
unfolding normalized unqualified
is_builtin_nop_authz fn_name =
    if is_empty fn_name
    then false
    else let name = unqualified (normalized fn_name) in
      bytes_eq name (codes "harbor_nop_authorization")
      || bytes_eq name (codes "quack_nop_authorization")
