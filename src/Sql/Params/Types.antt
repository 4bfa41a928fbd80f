-- ===== src/Sql/Params/Types.antt =====
-- src/sql_param_decoder.cpp: the names of types, `FindMatchingBracket`, `SplitTopLevelCommas`,
-- `ParseSimpleLogicalType` and `ParseLogicalType`. `LogicalType` has the constructors of DuckDB's that
-- are called.

pub mod Nested
pub mod WellFormed
pub mod Simple
pub mod Parsed
use duckdb_flock.Base.{
  ℕ, zero, suc, ◌+◌, ◌%◌, ◌^◌, Bool, true, false, not, ◌&&◌, ◌||◌, Option, none, some, List, [],
  ◌∷◌, ◌++◌, Bytes, codes, is_empty, is_space, bytes_eq, length, take, drop, all, Result, ok, err,
  ◌>>=◌, ◌>>◌, throw_if, or_throw, ltb, leb, ◌==◌, if◌then◌else◌,
}
use duckdb_flock.Duckdb.{StringUtil}
use duckdb_flock.Auth.Text.{skip_spaces, find}
use duckdb_flock.Auth.Cookie.Decimal.{stoull}

pub data Scalar : Type 0 where
  boolean tinyint smallint integer bigint hugeint utinyint usmallint uinteger ubigint uhugeint :
      Scalar
  float double varchar uuid date time time_tz timestamp timestamp_s timestamp_ms timestamp_ns :
      Scalar
  timestamp_tz interval blob bit : Scalar

mutual
  pub data LogicalType : Type 0 where
    scalar : Scalar → LogicalType
    decimal : ℕ → ℕ → LogicalType
    list : LogicalType → LogicalType
    array : LogicalType → ℕ → LogicalType
    map_of : LogicalType → LogicalType → LogicalType
    struct : Fields → LogicalType

  pub data Fields : Type 0 where
    no_field : Fields
    field : Bytes → LogicalType → Fields → Fields

pub data TypeError : Type 0 where
  too_deep too_long empty_type missing_arguments unexpected_bracket unbalanced trailing_garbage :
      TypeError
  two_arguments length_zero length_not_integer no_fields field_without_type bad_field_name :
      TypeError
  no_union bad_decimal unsupported : TypeError

unfoldable pub is_special : ℕ → Bool
is_special c = c == b'<' || c == b'>' || c == b'(' || c == b')' || c == b','

abbrev is_special_end : Option ℕ → Bool
is_special_end none = false
is_special_end (some c) = is_special c

-- Whether a white space in front of this text, behind that character, leaves nothing: it does but for
-- the last of a run, between two characters that are not special.
unfoldable pub leaves_nothing : Option ℕ → Bytes → Bool
unfolding is_special
leaves_nothing last [] = true
leaves_nothing last (d ∷ s) = is_space d || is_special_end last || is_special d

unfoldable pub collapse : Option ℕ → Bytes → Bytes
unfolding leaves_nothing
collapse last [] = []
collapse last (c ∷ s) =
    let dropped = collapse last s in
    let kept = 32 ∷ collapse (some 32) s in
    let pushed = c ∷ collapse (some c) s in
    if is_space c then (if leaves_nothing last s then dropped else kept) else pushed

-- The normalization of white space.
unfoldable pub normalize : Bytes → Bytes
unfolding collapse skip_spaces
normalize input = collapse none (skip_spaces input)

abbrev cons_inner : ℕ → Option (Bytes × Bytes) → Option (Bytes × Bytes)
cons_inner c none = none
cons_inner c (some (inner, rest)) = some (c ∷ inner, rest)

-- `FindMatchingBracket` behind the open bracket, with the brackets that were opened and closed so far:
-- what is inside, and what is behind the closing bracket.
unfoldable pub find_matching_bracket : ℕ → ℕ → ℕ → Bytes → Option (Bytes × Bytes)
find_matching_bracket close opened closed [] = none
find_matching_bracket close opened closed (c ∷ s) =
    let deeper = cons_inner c (find_matching_bracket close (suc opened) closed s) in
    let shallower = cons_inner c (find_matching_bracket close opened (suc closed) s) in
    let next = cons_inner c (find_matching_bracket close opened closed s) in
    if c == b'(' || c == b'<'
    then deeper
    else if c == b')' || c == b'>'
    then (if opened == suc closed && c == close then some ([], s) else shallower)
    else next

-- The depths of `SplitTopLevelCommas`, as the brackets opened and closed.
pub record Depths : Type 0 where
  pub angle_opened : ℕ
  pub angle_closed : ℕ
  pub paren_opened : ℕ
  pub paren_closed : ℕ

unfoldable pub see : ℕ → Depths → Depths
see c d =
    if c == b'<'
    then record d { angle_opened = suc d.angle_opened }
    else if c == b'>'
    then record d { angle_closed = suc d.angle_closed }
    else if c == b'('
    then record d { paren_opened = suc d.paren_opened }
    else if c == b')'
    then record d { paren_closed = suc d.paren_closed }
    else d

unfoldable pub at_top : Depths → Bool
at_top d = d.angle_opened == d.angle_closed && d.paren_opened == d.paren_closed

-- The loop, with the segment that is being read.
unfoldable pub split_loop : StringUtil → Depths → Bytes → Bytes → List Bytes
unfolding see at_top
split_loop u d segment [] = if is_empty segment then [] else u.trim segment ∷ []
split_loop u d segment (c ∷ s) =
    let cut = u.trim segment ∷ split_loop u d [] s in
    let longer = split_loop u (see c d) (segment ++ c ∷ []) s in
    if c == b',' && at_top d then cut else longer

unfoldable pub split_top_level_commas : StringUtil → Bytes → List Bytes
unfolding split_loop
split_top_level_commas u s =
    split_loop u (record { angle_opened = 0; angle_closed = 0; paren_opened = 0; paren_closed = 0 })
      [] s

-- The names of `ParseSimpleLogicalType`, in the order of its tests.
abbrev pub simple_types : List (Bytes × Scalar)
simple_types =
    (codes "BOOLEAN", boolean)
    ∷ (codes "TINYINT", tinyint)
    ∷ (codes "SMALLINT", smallint)
    ∷ (codes "INTEGER", integer)
    ∷ (codes "INT", integer)
    ∷ (codes "BIGINT", bigint)
    ∷ (codes "HUGEINT", hugeint)
    ∷ (codes "UTINYINT", utinyint)
    ∷ (codes "USMALLINT", usmallint)
    ∷ (codes "UINTEGER", uinteger)
    ∷ (codes "UBIGINT", ubigint)
    ∷ (codes "UHUGEINT", uhugeint)
    ∷ (codes "FLOAT", float)
    ∷ (codes "DOUBLE", double)
    ∷ (codes "VARCHAR", varchar)
    ∷ (codes "STRING", varchar)
    ∷ (codes "UUID", uuid)
    ∷ (codes "DATE", date)
    ∷ (codes "TIME", time)
    ∷ (codes "TIMETZ", time_tz)
    ∷ (codes "TIME WITH TIME ZONE", time_tz)
    ∷ (codes "TIMESTAMP", timestamp)
    ∷ (codes "TIMESTAMP_S", timestamp_s)
    ∷ (codes "TIMESTAMP_MS", timestamp_ms)
    ∷ (codes "TIMESTAMP_NS", timestamp_ns)
    ∷ (codes "TIMESTAMPTZ", timestamp_tz)
    ∷ (codes "TIMESTAMP WITH TIME ZONE", timestamp_tz)
    ∷ (codes "INTERVAL", interval)
    ∷ (codes "BLOB", blob)
    ∷ (codes "BIT", bit)
    ∷ []

unfoldable pub find_simple : List (Bytes × Scalar) → Bytes → Option Scalar
find_simple [] s = none
find_simple ((name, t) ∷ types) s =
    let rest = find_simple types s in if bytes_eq s name then some t else rest

-- The two numbers behind `DECIMAL(`, each cast to a `uint8_t`.
unfoldable pub parse_decimal : Bytes → Option LogicalType
unfolding find stoull
parse_decimal arguments = elim (find b',' arguments) [
  | none ↦ none
  | some comma ↦ elim (find b')' (drop (suc comma) arguments)) [
    | none ↦ none
    | some r ↦ elim (stoull (take comma arguments)) [
      | none ↦ none
      | some width ↦ elim (stoull (take r (drop (suc comma) arguments))) [
        | none ↦ none
        | some scale ↦ some (decimal (width % 2 ^ 8) (scale % 2 ^ 8))
      ]
    ]
  ]
]

unfoldable pub parse_simple_logical_type : StringUtil → Bytes → Result TypeError LogicalType
unfolding find_simple parse_decimal
parse_simple_logical_type u input =
    let s = u.trim (u.upper input) in
    elim (find_simple simple_types s) [
      | some t ↦ ok (scalar t)
      | none ↦
          if u.starts_with s (codes "DECIMAL(")
          then or_throw (parse_decimal (drop 8 s)) bad_decimal
          else err unsupported
    ]
