-- ===== src/Duckdb.antt =====
-- The database process as the server's code sees it: DuckDB itself is not part of the repository.
use duckdb_flock.Base.{ℕ, Bool, true, false, ◌≡◌, ◌++◌, Option, some, List, [], Bytes}

-- A `Value` that a setting holds, by the types that the code asks for.
pub data Setting : Type 0 where
  null : Setting
  varchar : Bytes → Setting
  boolean : Bool → Setting
  ubigint : ℕ → Setting
  other : Setting

-- How a prepared `SELECT f(...)` ends; the cell is row 0, column 0 of the first chunk.
pub data QueryOutcome : Type 0 where
  prepare_failed execute_failed no_chunk empty_chunk cell_null cell_not_boolean threw : QueryOutcome
  cell_boolean : Bool → QueryOutcome

-- `try_get_current_setting` and a query with bound values, each a function of its arguments for
-- as long as one state of the process lasts.
pub record Database : Type 0 where
  pub try_get_current_setting : Bytes → Option Setting
  pub query : Bytes → List Bytes → QueryOutcome
  -- `GetValue<uint64_t>`; `none` is an exception.
  pub get_uint64 : Setting → Option ℕ

-- The functions of DuckDB's `StringUtil` that the modelled code calls.
pub record StringUtil : Type 0 where
  pub starts_with : Bytes → Bytes → Bool
  pub split : Bytes → Bytes → List Bytes
  pub lower : Bytes → Bytes
  pub upper : Bytes → Bytes
  pub trim : Bytes → Bytes

-- A text starts with what was put in front of it.
pub record IsStringUtil (u : StringUtil) : Type 0 where
  pub starts_with_prefix : (p s : Bytes) → u.starts_with (p ++ s) p ≡ true

-- `GetSettingString`: the empty string unless the setting is a text.
unfoldable pub get_setting_string : Database → Bytes → Bytes
get_setting_string db name = elim (db.try_get_current_setting name) [
  | some (varchar s) ↦ s
  | _ ↦ []
]

-- A Boolean setting, or the fallback where it is missing, null or of another type.
unfoldable pub setting_bool_or : Database → Bytes → Bool → Bool
setting_bool_or db name fallback = elim (db.try_get_current_setting name) [
  | some (boolean b) ↦ b
  | _ ↦ fallback
]

-- What `EvaluateAuthQuery` makes of an outcome: every way to fail is a refusal.
unfoldable pub cell_of : QueryOutcome → Bool
cell_of (cell_boolean b) = b
cell_of _ = false

unfoldable pub evaluate_auth_query : Database → Bytes → List Bytes → Bool
unfolding cell_of
evaluate_auth_query db sql values = cell_of (db.query sql values)
