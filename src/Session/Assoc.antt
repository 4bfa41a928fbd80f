-- ===== src/Session/Assoc.antt =====
-- `unordered_map<string, ...>` as a list of keys and values with no key twice. The order of its
-- entries is that of the list; the code relies on none.
use mathlib.Core.Path.{subst}
use duckdb_flock.Base.{
  ◌≡◌, ◌≢◌, refl, Option, none, some, List, [], ◌∷◌, Bytes, bytes_eq, bytes_eq_refl, bytes_eq→eq,
  All, arith, if◌then◌else◌, Bool-cases, inl, inr,
}

module _ {ℓ} {V : Type ℓ} where
  -- `active.find(key)`.
  unfoldable pub find_key : Bytes → List (Bytes × V) → Option V
  find_key key [] = none
  find_key key ((k, v) ∷ entries) = if bytes_eq k key then some v else find_key key entries

  -- `active.erase(it)` at the entry of the key.
  unfoldable pub erase_key : Bytes → List (Bytes × V) → List (Bytes × V)
  erase_key key [] = []
  erase_key key ((k, v) ∷ entries) =
      let rest = erase_key key entries in if bytes_eq k key then entries else (k, v) ∷ rest

  abbrev pub Fresh : Bytes → List (Bytes × V) → Type 0
  Fresh key [] = Unit
  Fresh key ((k, v) ∷ entries) = (k ≢ key) × Fresh key entries

  abbrev pub Distinct : List (Bytes × V) → Type 0
  Distinct [] = Unit
  Distinct ((k, v) ∷ entries) = Fresh k entries × Distinct entries

  pub find_key-Fresh : (key : Bytes) (m : List (Bytes × V)) → find_key key m ≡ none → Fresh key m
  unfolding find_key
  find_key-Fresh key [] h = tt
  find_key-Fresh key ((k, v) ∷ m) h = elim (Bool-cases (bytes_eq k key)) [
    | inl e ↦ absurd (ground arith)
    | inr e ↦ ((λ p. ground (arith, p, bytes_eq_refl key)), find_key-Fresh key m (ground arith))
  ]

  pub Fresh-find_key : (key : Bytes) (m : List (Bytes × V)) → Fresh key m → find_key key m ≡ none
  unfolding find_key
  Fresh-find_key key [] h = refl
  Fresh-find_key key ((k, v) ∷ m) h =
      ground (arith, bytes_eq→eq k key, h.0, Fresh-find_key key m h.1)

  Fresh-erase_key : (key j : Bytes) (m : List (Bytes × V)) → Fresh key m → Fresh key (erase_key j m)
  unfolding erase_key
  Fresh-erase_key key j [] h = tt
  Fresh-erase_key key j ((k, v) ∷ m) h = elim (Bool-cases (bytes_eq k j)) [
    | inl e ↦ rw e h.1
    | inr e ↦ rw e (h.0, Fresh-erase_key key j m h.1)
  ]

  pub Distinct-erase_key :
      (j : Bytes) (m : List (Bytes × V)) → Distinct m → Distinct (erase_key j m)
  unfolding erase_key
  Distinct-erase_key j [] h = tt
  Distinct-erase_key j ((k, v) ∷ m) h = elim (Bool-cases (bytes_eq k j)) [
    | inl e ↦ rw e h.1
    | inr e ↦ rw e (Fresh-erase_key k j m h.0, Distinct-erase_key j m h.1)
  ]

  pub All-erase_key {κ} :
      (P : Bytes × V → Type κ) (j : Bytes) (m : List (Bytes × V)) → All P m → All P (erase_key j m)
  unfolding erase_key
  All-erase_key P j [] h = tt
  All-erase_key P j ((k, v) ∷ m) h = elim (Bool-cases (bytes_eq k j)) [
    | inl e ↦ rw e h.1
    | inr e ↦ rw e (h.0, All-erase_key P j m h.1)
  ]

  pub All-find_key {κ} :
      (P : Bytes × V → Type κ) (j : Bytes) (m : List (Bytes × V)) (v : V)
      → All P m
      → find_key j m ≡ some v
      → P (j, v)
  unfolding find_key
  All-find_key P j [] v h e = cc
  All-find_key P j ((k, w) ∷ m) v h e = elim (Bool-cases (bytes_eq k j)) [
    | inl f ↦
        let same = bytes_eq→eq k j f in
        let value : w ≡ v = ground arith in subst P (λ i. (same i, value i)) h.0
    | inr f ↦ All-find_key P j m v h.1 (ground arith)
  ]

  -- What is found after an erasure.
  pub find_key-erase_key :
      (j key : Bytes) (m : List (Bytes × V))
      → Distinct m
      → find_key key (erase_key j m) ≡ (if bytes_eq j key then none else find_key key m)
  unfolding find_key erase_key
  find_key-erase_key j key [] d = ground arith
  find_key-erase_key j key ((k, v) ∷ m) d = elim (Bool-cases (bytes_eq k j)) [
    | inl e ↦
        let same = bytes_eq→eq k j e in
        elim (Bool-cases (bytes_eq j key)) [
          | inl f ↦ ground (arith, Fresh-find_key k m d.0, bytes_eq→eq j key f, same)
          | inr f ↦ ground (arith, same)
        ]
    | inr e ↦ ground (
      arith,
      find_key-erase_key j key m d.1,
      bytes_eq→eq k key,
      bytes_eq→eq j key,
      bytes_eq_refl key,
    )
  ]
