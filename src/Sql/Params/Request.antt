-- ===== src/Sql/Params/Request.antt =====
-- src/sql_param_decoder.cpp: `ParseRequest`, the reader of the body of a /sql request. `result.ok` and
-- `result.error` are the two sides of a `Result`.
pub mod Terminates
pub mod Written
use duckdb_flock.Base.{
  ℕ, zero, suc, Bool, true, false, List, [], ◌∷◌, Bytes, codes, length, is_empty, Result, ok, err,
  ◌>>=◌, ◌==◌, if◌then◌else◌, bytes_eq,
}
use duckdb_flock.Sql.Params.Tokens.{
  ParamError, not_an_object, missing_sql, out_of_fuel, skip_whitespace, consume_char, parse_string,
  parse_raw_value,
}

pub record ParsedRequest : Type 0 where
  pub sql : Bytes
  pub session_id : Bytes
  pub params_json : Bytes

unfoldable pub empty_request : ParsedRequest
empty_request = record { sql = []; session_id = []; params_json = [] }

-- `pos < body.size() && body[pos] == '}'`.
unfoldable pub ends_object : Bytes → Bool
ends_object [] = false
ends_object (c ∷ json) = c == b'}'

-- The dispatch on the key of a member, whose value is the text `raw`.
unfoldable pub store_member : Bytes → Bytes → ParsedRequest → Result ParamError ParsedRequest
store_member name raw result =
    if bytes_eq name (codes "sql")
    then (parse_string raw >>= λ s. ok (record result { sql = s.0 }))
    else if bytes_eq name (codes "sessionId")
    then (parse_string raw >>= λ s. ok (record result { session_id = s.0 }))
    else if bytes_eq name (codes "params")
    then ok (record result { params_json = raw })
    else ok result

-- The comma in front of every member but the first.
unfoldable pub skip_comma : Bool → Bytes → Result ParamError Bytes
skip_comma true json = ok json
skip_comma false json = consume_char b',' json >>= λ rest. ok (skip_whitespace rest)

-- One member, from the comma to the end of the value.
unfoldable pub parse_member :
    Bool → Bytes → ParsedRequest → Result ParamError (ParsedRequest × Bytes)
parse_member first json result = skip_comma first json >>= λ start. parse_string start >>= λ name.
    consume_char b':' name.1 >>= λ behind. parse_raw_value behind >>= λ value.
    store_member name.0 value.0 result >>= λ next. ok (next, value.1)

-- The loop behind the opening brace; a round takes at least one character of the body.
unfoldable pub request_loop : ℕ → Bool → Bytes → ParsedRequest → Result ParamError ParsedRequest
unfolding ends_object
request_loop zero first json result = err out_of_fuel
request_loop (suc fuel) first json result =
    let more : ParsedRequest × Bytes → Result ParamError ParsedRequest =
      λ p. request_loop fuel false p.1 p.0 in
    if ends_object (skip_whitespace json)
    then ok result
    else (parse_member first (skip_whitespace json) result >>= more)

unfoldable pub check_sql : ParsedRequest → Result ParamError ParsedRequest
check_sql result = if is_empty result.sql then err missing_sql else ok result

unfoldable pub request_here : Bytes → Result ParamError ParsedRequest
request_here [] = err not_an_object
request_here (c ∷ json) =
    if c == b'{'
    then (request_loop (suc (length json)) true json empty_request >>= check_sql)
    else err not_an_object

unfoldable pub parse_request : Bytes → Result ParamError ParsedRequest
parse_request body = request_here (skip_whitespace body)
