-- ===== src/Sql/Params/Types/Simple.antt =====
-- The types that `ParseSimpleLogicalType` gives.
use duckdb_flock.Base.{
  ℕ, suc, ◌%◌, ◌^◌, Option, none, some, Bytes, codes, drop, take, ok, err, or_throw, if◌then◌else◌,
  arith,
}
use duckdb_flock.Duckdb.{StringUtil}
use duckdb_flock.Auth.Text.{find}
use duckdb_flock.Auth.Cookie.Decimal.{stoull}
use duckdb_flock.Sql.Params.Types.{
  Scalar, scalar, decimal, TypeError, bad_decimal, unsupported, simple_types, find_simple,
  parse_decimal, parse_simple_logical_type,
}
use duckdb_flock.Sql.Params.Types.WellFormed.{IsSound, Yields, either}

byte-IsSound : (n width scale : ℕ) → IsSound (suc n) (decimal (width % 2 ^ 8) (scale % 2 ^ 8))
unfolding IsSound
byte-IsSound n width scale = (omega arith, omega arith)

scaled_sound :
    (n width : ℕ) (x : TypeError) (o : Option ℕ)
    → Yields (IsSound (suc n)) (
        or_throw
          (elim o [ none ↦ none | some scale ↦ some (decimal (width % 2 ^ 8) (scale % 2 ^ 8)) ])
          x)
scaled_sound n width x none = tt
scaled_sound n width x (some scale) = byte-IsSound n width scale

at_width_sound :
    (n r : ℕ) (rest : Bytes) (x : TypeError) (o : Option ℕ)
    → Yields (IsSound (suc n)) (
        or_throw
          (elim o [
            | none ↦ none
            | some width ↦ elim (stoull (take r rest)) [
              | none ↦ none
              | some scale ↦ some (decimal (width % 2 ^ 8) (scale % 2 ^ 8))
            ]
          ])
          x)
at_width_sound n r rest x none = tt
at_width_sound n r rest x (some width) = scaled_sound n width x (stoull (take r rest))

at_bracket_sound :
    (n comma : ℕ) (s : Bytes) (x : TypeError) (o : Option ℕ)
    → Yields (IsSound (suc n)) (
        or_throw
          (elim o [
            | none ↦ none
            | some r ↦ elim (stoull (take comma s)) [
              | none ↦ none
              | some width ↦ elim (stoull (take r (drop (suc comma) s))) [
                | none ↦ none
                | some scale ↦ some (decimal (width % 2 ^ 8) (scale % 2 ^ 8))
              ]
            ]
          ])
          x)
at_bracket_sound n comma s x none = tt
at_bracket_sound n comma s x (some r) =
    at_width_sound n r (drop (suc comma) s) x (stoull (take comma s))

at_comma_sound :
    (n : ℕ) (s : Bytes) (x : TypeError) (o : Option ℕ)
    → Yields (IsSound (suc n)) (
        or_throw
          (elim o [
            | none ↦ none
            | some comma ↦ elim (find b')' (drop (suc comma) s)) [
              | none ↦ none
              | some r ↦ elim (stoull (take comma s)) [
                | none ↦ none
                | some width ↦ elim (stoull (take r (drop (suc comma) s))) [
                  | none ↦ none
                  | some scale ↦ some (decimal (width % 2 ^ 8) (scale % 2 ^ 8))
                ]
              ]
            ]
          ])
          x)
at_comma_sound n s x none = tt
at_comma_sound n s x (some comma) = at_bracket_sound n comma s x (find b')' (drop (suc comma) s))

parse_decimal_sound :
    (n : ℕ) (s : Bytes) (x : TypeError) → Yields (IsSound (suc n)) (or_throw (parse_decimal s) x)
unfolding parse_decimal
parse_decimal_sound n s x = at_comma_sound n s x (find b',' s)

simple_or_decimal_sound :
    (u : StringUtil) (n : ℕ) (s : Bytes) (o : Option Scalar)
    → Yields (IsSound (suc n)) (elim o [
      | some t ↦ ok (scalar t)
      | none ↦
          if u.starts_with s (codes "DECIMAL(")
          then or_throw (parse_decimal (drop 8 s)) bad_decimal
          else err unsupported
    ])
unfolding IsSound
simple_or_decimal_sound u n s (some t) = tt
simple_or_decimal_sound u n s none =
    either (IsSound (suc n)) (u.starts_with s (codes "DECIMAL(")) _ _
      (λ _. parse_decimal_sound n (drop 8 s) bad_decimal) (λ _. tt)

pub parse_simple_logical_type_sound :
    (u : StringUtil) (n : ℕ) (s : Bytes) → Yields (IsSound (suc n)) (parse_simple_logical_type u s)
unfolding parse_simple_logical_type
parse_simple_logical_type_sound u n s =
    simple_or_decimal_sound u n (u.trim (u.upper s)) (find_simple simple_types (u.trim (u.upper s)))
