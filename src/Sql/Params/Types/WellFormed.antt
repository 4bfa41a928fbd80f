-- ===== src/Sql/Params/Types/WellFormed.antt =====
-- What a type with a name is like, and results that hold one.
use duckdb_flock.Base.{
  ℕ, zero, suc, ◌<◌, ◌≡◌, refl, Bool, true, false, length, Result, ok, err, ◌>>=◌, if◌then◌else◌,
}
use mathlib.Core.Path.{subst}
use duckdb_flock.Sql.Params.Types.{
  LogicalType, scalar, decimal, list, array, map_of, struct, Fields, no_field, field, TypeError,
}
use duckdb_flock.Sql.Params.Types.Nested.{is_field_name}

-- A type that is nested less deep than a bound, whose decimals fit into a byte, whose arrays have a
-- length, whose structs have a field, and whose fields have names.
unfoldable mutual
  pub IsSound : ℕ → LogicalType → Type 0
  IsSound zero t = ⊥
  IsSound (suc n) (scalar s) = Unit
  IsSound (suc n) (decimal width scale) = (width < 256) × (scale < 256)
  IsSound (suc n) (list t) = IsSound n t
  IsSound (suc n) (array t length) = (0 < length) × IsSound n t
  IsSound (suc n) (map_of key val) = IsSound n key × IsSound n val
  IsSound (suc n) (struct no_field) = ⊥
  IsSound (suc n) (struct (field name t fields)) = AreSound n (field name t fields)

  pub AreSound : ℕ → Fields → Type 0
  AreSound n no_field = Unit
  AreSound n (field name t fields) = (is_field_name name ≡ true) × IsSound n t × AreSound n fields

-- A result, if there is one, is as it should be.
abbrev pub Yields : {A : Type 0} → (A → Type 0) → Result TypeError A → Type 0
Yields P (ok a) = P a
Yields P (err e) = Unit

pub Yields-bind :
    {A B : Type 0} (P : A → Type 0) (Q : B → Type 0) (r : Result TypeError A)
    (rest : A → Result TypeError B)
    → Yields P r
    → ((a : A) → P a → Yields Q (rest a))
    → Yields Q (r >>= rest)
Yields-bind P Q (ok a) rest h k = k a h
Yields-bind P Q (err e) rest h k = tt

pub Yields-ok :
    {A : Type 0} (P : A → Type 0) (r : Result TypeError A) (a : A) → r ≡ ok a → Yields P r → P a
Yields-ok P r a e h = subst (λ x. Yields P x) e h

pub any : {A : Type 0} (r : Result TypeError A) → Yields (λ a. Unit) r
any (ok a) = tt
any (err e) = tt

pub either :
    {A : Type 0} (P : A → Type 0) (b : Bool) (x y : Result TypeError A)
    → (b ≡ true → Yields P x)
    → (b ≡ false → Yields P y)
    → Yields P (if b then x else y)
either P true x y h k = h refl
either P false x y h k = k refl
