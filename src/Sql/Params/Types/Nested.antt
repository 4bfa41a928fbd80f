-- ===== src/Sql/Params/Types/Nested.antt =====
-- src/sql_param_decoder.cpp: `ParseLogicalType`. The fuel is one more than the nesting that is left, 33 less
-- the code's depth: the code's test of the depth is the fuel running out. DuckDB's constructors of
-- types are taken to return.
use duckdb_flock.Base.{
  ℕ, zero, suc, ◌+◌, Bool, false, not, ◌&&◌, ◌||◌, Option, none, some, List, [], ◌∷◌, Bytes, codes,
  is_empty, length, drop, all, Result, ok, err, ◌>>=◌, ◌>>◌, throw_if, or_throw, ltb, leb, ◌==◌,
  if◌then◌else◌,
}
use duckdb_flock.Duckdb.{StringUtil}
use duckdb_flock.Auth.Text.{skip_spaces}
use duckdb_flock.Auth.Cookie.Decimal.{stoull}
use duckdb_flock.Sql.Params.Types.{
  LogicalType, list, array, map_of, struct, Fields, no_field, field, TypeError, too_deep, too_long,
  empty_type, missing_arguments, unexpected_bracket, unbalanced, trailing_garbage, two_arguments,
  length_zero, length_not_integer, no_fields, field_without_type, bad_field_name, no_union,
  normalize, find_matching_bracket, split_top_level_commas, parse_simple_logical_type,
}

-- Behind the open bracket: what is inside, if only white space follows the closing one.
unfoldable pub closed_arguments : Option (Bytes × Bytes) → Result TypeError Bytes
unfolding skip_spaces
closed_arguments none = err unbalanced
closed_arguments (some (inner, rest)) =
    if is_empty (skip_spaces rest) then ok inner else err trailing_garbage

unfoldable pub opened_arguments : ℕ → ℕ → Bytes → Result TypeError Bytes
unfolding closed_arguments find_matching_bracket
opened_arguments start close [] = err missing_arguments
opened_arguments start close (c ∷ rest) =
    if c == start
    then closed_arguments (find_matching_bracket close 1 0 rest)
    else err unexpected_bracket

-- `parse_bracketed_args`.
unfoldable pub parse_bracketed_args : ℕ → ℕ → ℕ → Bytes → Result TypeError Bytes
unfolding opened_arguments
parse_bracketed_args header_len start close s =
    if ltb (length s) (header_len + 2)
    then err missing_arguments
    else opened_arguments start close (drop header_len s)

-- `std::isalpha` in the C locale, or an underscore; and `std::isalnum`, or an underscore.
unfoldable pub starts_name : ℕ → Bool
starts_name c = (leb b'a' c && leb c b'z') || (leb b'A' c && leb c b'Z') || c == b'_'

unfoldable pub continues_name : ℕ → Bool
unfolding starts_name
continues_name c = starts_name c || (leb b'0' c && leb c b'9')

unfoldable pub is_field_name : Bytes → Bool
unfolding starts_name continues_name
is_field_name [] = false
is_field_name (c ∷ name) = starts_name c && all continues_name (c ∷ name)

-- `field.find_first_of(" \t")`: the text in front of the first blank, and the text behind it.
unfoldable pub at_blank : Bytes → Option (Bytes × Bytes)
at_blank [] = none
at_blank (c ∷ s) =
    let later = at_blank s in
    if c == 32 || c == 9
    then some ([], s)
    else elim later [ none ↦ none | some (name, rest) ↦ some (c ∷ name, rest) ]

-- The two arguments of `ARRAY` and `MAP`.
unfoldable pub pair_of : List Bytes → Result TypeError (Bytes × Bytes)
pair_of (a ∷ b ∷ []) = ok (a, b)
pair_of _ = err two_arguments

unfoldable pub array_length : Option ℕ → Result TypeError ℕ
array_length none = err length_not_integer
array_length (some n) = if n == 0 then err length_zero else ok n

module _ (u : StringUtil) (parse : Bytes → Result TypeError LogicalType) where
  unfoldable pub parse_field : Bytes → Result TypeError (Bytes × LogicalType)
  unfolding at_blank is_field_name
  parse_field text = do
    (name, type_part) ← or_throw (at_blank text) field_without_type
    throw_if (not (is_field_name (u.trim name))) bad_field_name
    t ← parse (u.trim type_part)
    ok (u.trim name, t)

  unfoldable pub parse_fields : List Bytes → Result TypeError Fields
  unfolding parse_field
  parse_fields [] = ok no_field
  parse_fields (text ∷ texts) = do
    (name, t) ← parse_field text
    fields ← parse_fields texts
    ok (field name t fields)

  unfoldable pub parse_array : Bytes → Result TypeError LogicalType
  unfolding pair_of array_length split_top_level_commas stoull
  parse_array inner = do
    (element, count) ← pair_of (split_top_level_commas u inner)
    child ← parse element
    n ← array_length (stoull count)
    ok (array child n)

  unfoldable pub parse_map : Bytes → Result TypeError LogicalType
  unfolding pair_of split_top_level_commas
  parse_map inner = do
    (first, second) ← pair_of (split_top_level_commas u inner)
    key ← parse first
    val ← parse second
    ok (map_of key val)

  unfoldable pub parse_struct : Bytes → Result TypeError LogicalType
  unfolding split_top_level_commas parse_fields
  parse_struct inner = do
    throw_if (leb (length (split_top_level_commas u inner)) 0) no_fields
    fields ← parse_fields (split_top_level_commas u inner)
    ok (struct fields)

  -- One level: `parse` is the next.
  unfoldable pub parse_normalized : Bytes → Result TypeError LogicalType
  unfolding parse_bracketed_args parse_array parse_map parse_struct parse_simple_logical_type
  parse_normalized s =
      let upper = u.upper s in
      if is_empty s
      then err empty_type
      else if u.starts_with upper (codes "LIST<")
      then (parse_bracketed_args 4 b'<' b'>' s >>= λ inner.
          parse inner >>= λ child. ok (list child))
      else if u.starts_with upper (codes "ARRAY<")
      then (parse_bracketed_args 5 b'<' b'>' s >>= parse_array)
      else if u.starts_with upper (codes "MAP<")
      then (parse_bracketed_args 3 b'<' b'>' s >>= parse_map)
      else if u.starts_with upper (codes "STRUCT(")
      then (parse_bracketed_args 6 b'(' b')' s >>= parse_struct)
      else if u.starts_with upper (codes "UNION(")
      then err no_union
      else parse_simple_logical_type u s

abbrev pub max_type_nesting : ℕ
max_type_nesting = 32

abbrev pub max_type_string_length : ℕ
max_type_string_length = 4096

-- `ParseLogicalType`; the first call has depth 0, and fuel `suc max_type_nesting`.
unfoldable pub parse_logical_type : StringUtil → ℕ → Bytes → Result TypeError LogicalType
unfolding parse_normalized normalize
parse_logical_type u zero input = err too_deep
parse_logical_type u (suc fuel) input =
    let deeper : Bytes → Result TypeError LogicalType = λ inner. parse_logical_type u fuel inner in
    if ltb max_type_string_length (length input)
    then err too_long
    else parse_normalized u deeper (normalize input)
