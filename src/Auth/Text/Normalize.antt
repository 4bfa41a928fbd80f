-- ===== src/Auth/Text/Normalize.antt =====
-- Which authorization functions count as the built-in one that allows everything.
use duckdb_flock.Base.{
  ℕ, suc, ◌≡◌, refl, sym, false, ◌||◌, some, Option-cases, inl, inr, [], ◌∷◌, ◌++◌, map, Bytes,
  codes, is_empty, is_space, to_lower, bytes_eq, drop, arith,
}
use duckdb_flock.Auth.Text.{rfind, normalized, unqualified, is_builtin_nop_authz}

normalized-append : (s t : Bytes) → normalized (s ++ t) ≡ normalized s ++ normalized t
unfolding normalized
normalized-append [] t = refl
normalized-append (c ∷ s) t = ground (arith, normalized-append s t)

rfind-append :
    (s t : Bytes)
    → (k : ℕ) × (rfind b'.' (s ++ b'.' ∷ t) ≡ some k)
      × (drop (suc k) (s ++ b'.' ∷ t) ≡ unqualified t)
unfolding rfind unqualified
rfind-append [] t = elim (Option-cases (rfind b'.' t)) [
  | inl e ↦ (0, rw e refl, rw (unqualified, e) refl)
  | inr (i, e) ↦ (suc i, rw e refl, rw (unqualified, e) refl)
]
rfind-append (c ∷ s) t = let (k, e, h) = rfind-append s t in (suc k, rw e refl, h)

unqualified-append : (s t : Bytes) → unqualified (s ++ b'.' ∷ t) ≡ unqualified t
unfolding unqualified
unqualified-append s t = let (k, e, h) = rfind-append s t in rw (unqualified, e) h

is_builtin_nop_authz-nonempty :
    (s : Bytes)
    → is_empty s ≡ false
    → is_builtin_nop_authz s ≡ (
        bytes_eq (unqualified (normalized s)) (codes "harbor_nop_authorization")
        || bytes_eq (unqualified (normalized s)) (codes "quack_nop_authorization"))
unfolding is_builtin_nop_authz
is_builtin_nop_authz-nonempty s h = rw h refl

pub is_empty-append : (s t : Bytes) (c : ℕ) → is_empty (s ++ c ∷ t) ≡ false
is_empty-append [] t c = refl
is_empty-append (d ∷ s) t c = refl

normalized_dot : (name : Bytes) → normalized (b'.' ∷ name) ≡ b'.' ∷ normalized name
unfolding normalized is_space to_lower
normalized_dot name = refl

-- A schema in front of a name makes no difference to whether it is taken for the built-in
-- authorization function that allows everything.
pub is_builtin_nop_authz-qualified :
    (schema name : Bytes) → is_builtin_nop_authz (schema ++ b'.' ∷ name) ≡ is_builtin_nop_authz name
is_builtin_nop_authz-qualified schema name =
    rw
      (
        is_builtin_nop_authz-nonempty _ (is_empty-append schema name b'.'),
        normalized-append schema (b'.' ∷ name),
        normalized_dot name,
        unqualified-append (normalized schema) (normalized name),
      )
      (bare name)
  where
    bare :
        (name : Bytes)
        → (bytes_eq (unqualified (normalized name)) (codes "harbor_nop_authorization")
            || bytes_eq (unqualified (normalized name)) (codes "quack_nop_authorization"))
          ≡ is_builtin_nop_authz name
    bare [] = unfold is_builtin_nop_authz bytes_eq in refl
    bare (c ∷ r) = sym (is_builtin_nop_authz-nonempty (c ∷ r) refl)

to_lower_idem : (c : ℕ) → to_lower (to_lower c) ≡ to_lower c
unfolding to_lower
to_lower_idem c = ground arith

is_space-to_lower : (c : ℕ) → is_space (to_lower c) ≡ is_space c
unfolding to_lower is_space
is_space-to_lower c = ground arith

normalized-map : (s : Bytes) → normalized (map to_lower s) ≡ normalized s
unfolding normalized
normalized-map [] = refl
normalized-map (c ∷ s) = rw (is_space-to_lower c, to_lower_idem c, normalized-map s) refl

-- The case of a name's letters makes no difference to whether it is taken for the built-in
-- authorization function that allows everything.
pub is_builtin_nop_authz-case :
    (name : Bytes) → is_builtin_nop_authz (map to_lower name) ≡ is_builtin_nop_authz name
unfolding is_builtin_nop_authz
is_builtin_nop_authz-case [] = refl
is_builtin_nop_authz-case (c ∷ s) = rw normalized-map refl
