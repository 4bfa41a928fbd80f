-- ===== src/Examples/Types.antt =====
-- Names of types that are parsed.
use duckdb_flock.Base.{◌≡◌, refl, codes, is_space, starts_with, bytes_eq, suc, ok, err}
use duckdb_flock.Auth.Text.{trim_ascii}
use duckdb_flock.Sql.Params.Types.{
  integer, LogicalType, scalar, decimal, list, struct, no_field, field, trailing_garbage,
}
use duckdb_flock.Sql.Params.Types.Nested.{parse_logical_type, max_type_nesting}
use duckdb_flock.Sql.Params.Types.WellFormed.{IsSound}
use duckdb_flock.Sql.Params.Types.Parsed.{parse_logical_type-IsSound}
use duckdb_flock.Examples.Inputs.{toy_string_util}

abbrev struct_of_list : LogicalType
struct_of_list = struct (field (codes "a") (list (scalar integer)) no_field)

parses :
    parse_logical_type toy_string_util (suc max_type_nesting) (codes "STRUCT(a LIST < INT > )")
    ≡ ok struct_of_list
unfolding parse_logical_type is_space starts_with trim_ascii bytes_eq
parses = refl

no_more :
    parse_logical_type toy_string_util (suc max_type_nesting) (codes "LIST<INT> x")
    ≡ err trailing_garbage
unfolding parse_logical_type is_space starts_with
no_more = refl

wraps :
    parse_logical_type toy_string_util (suc max_type_nesting) (codes "DECIMAL(266,2)")
    ≡ ok (decimal 10 2)
unfolding parse_logical_type is_space starts_with trim_ascii bytes_eq
wraps = refl

parse_logical_type-IsSound_example : IsSound (suc max_type_nesting) struct_of_list
parse_logical_type-IsSound_example =
    parse_logical_type-IsSound toy_string_util (suc max_type_nesting)
      (codes "STRUCT(a LIST < INT > )") struct_of_list parses
