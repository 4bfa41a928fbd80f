-- ===== src/Examples/Requests.antt =====
-- Bodies that are parsed, texts that are escaped, and streams.
use duckdb_flock.Base.{
  ℕ, ◌<◌, ◌≤◌, ◌≡◌, ◌≢◌, ◌⊎◌, refl, sym, true, false, All, all, ltb, ltb→lt, List, [], ◌∷◌, ◌++◌,
  Bytes, codes, ok, err, arith, some, inl, inr, &&-eq-true, bytes_eq,
}
use duckdb_flock.Sql.Utf8.{IsScalar}
use duckdb_flock.Sql.JsonWriter.Escaping.{encode_all, encode_ascii}
use duckdb_flock.Sql.JsonWriter.Tree.{
  Json, Members, member, no_member, string, number, array_of, object_of, element, no_element, text,
}
use duckdb_flock.Sql.Params.Tokens.{
  ParamError, out_of_fuel, parse_string, ends_literal, is_json_space,
}
use duckdb_flock.Sql.Params.Tokens.Values.{HasNumbers, all-IsNumeric, is_numeric}
use duckdb_flock.Sql.Params.Request.{ParsedRequest, empty_request, parse_request, check_sql}
use duckdb_flock.Sql.Params.Request.Written.{IsText, Readable, request_of, parse_request-text}
use duckdb_flock.Sql.Params.Request.Terminates.{parse_request_terminates}
use duckdb_flock.Session.{no_cause}
use duckdb_flock.Http.Escape.{escape_json_string, parse_string-escape_json_string}
use duckdb_flock.Http.Auth.{cookie_ttl_sec}
use duckdb_flock.Http.Auth.Login.{cookie_ttl_sec-bounds}
use duckdb_flock.Http.Stream.{Turn, chunk, new_ctx, stream}
use duckdb_flock.Http.Stream.Shape.{IsProtocol, stream-IsProtocol}
use duckdb_flock.Http.Stream.Rows.{IsSized, Counts, rows_in, stream-rows}
use duckdb_flock.Examples.Inputs.{allowing, toy_string_util}

ascii_all : (s : Bytes) → all (λ c. ltb c 128) s ≡ true → All IsScalar s × (encode_all s ≡ s)
ascii_all [] h = (tt, refl)
ascii_all (c ∷ s) h =
    let (a, b) = &&-eq-true (ltb c 128) (all (λ d. ltb d 128) s) h in
    let low = ltb→lt c 128 a in
    let (scalars, same) = ascii_all s b in
    (
      (record { in_range = omega arith; no_surrogate = λ k. absurd (omega arith) }, scalars),
      ground (arith, encode_ascii c low),
    )

ascii : (s : Bytes) → all (λ c. ltb c 128) s ≡ true → IsText s
ascii s h = (s, (ascii_all s h).0, sym (ascii_all s h).1)

abbrev query : Bytes
query = codes "SELECT \"a\" WHERE b = ?"

abbrev params : Json
params = array_of (element (number (codes "12")) (element (string (codes "]")) no_element))

abbrev request : Members
request =
    member (codes "sql") (string query)
      (member (codes "params") params (member (codes "trace") (number (codes "7")) no_member))

number_numeric : (s : Bytes) → s ≢ [] → all is_numeric s ≡ true → HasNumbers (number s)
unfolding HasNumbers
number_numeric s f h = (f, all-IsNumeric s h)

params-HasNumbers : HasNumbers params
unfolding HasNumbers is_numeric ends_literal is_json_space
params-HasNumbers = (number_numeric (codes "12") (λ e. cc) refl, (tt, tt))

seven-HasNumbers : HasNumbers (number (codes "7"))
unfolding is_numeric ends_literal is_json_space
seven-HasNumbers = number_numeric (codes "7") (λ e. cc) refl

request-Readable : Readable request
unfolding HasNumbers bytes_eq
request-Readable = (
  ascii (codes "sql") refl,
  tt,
  (λ k. (query, refl, ascii query refl)),
  (
    ascii (codes "params") refl,
    params-HasNumbers,
    (λ k. elim k [ inl h ↦ cc | inr h ↦ cc ]),
    (ascii (codes "trace") refl, seven-HasNumbers, (λ k. elim k [ inl h ↦ cc | inr h ↦ cc ]), tt),
  ),
)

parse_request-text_example :
    parse_request (text (object_of request)) ≡ check_sql (request_of request empty_request)
parse_request-text_example = parse_request-text request request-Readable

parse_request_terminates_example :
    ((r : ParsedRequest) × (parse_request (codes "{\"sql\": 7, ") ≡ ok r))
    ⊎ ((e : ParamError) × (parse_request (codes "{\"sql\": 7, ") ≡ err e) × (e ≢ out_of_fuel))
parse_request_terminates_example = parse_request_terminates (codes "{\"sql\": 7, ")

parse_string-escape_json_string_example :
    parse_string (b'"' ∷ (escape_json_string (34 ∷ 1 ∷ 255 ∷ 92 ∷ []) ++ (b'"' ∷ codes ", x")))
    ≡ ok (34 ∷ 1 ∷ 255 ∷ 92 ∷ [], codes ", x")
parse_string-escape_json_string_example =
    parse_string-escape_json_string (34 ∷ 1 ∷ 255 ∷ 92 ∷ []) (codes ", x")

cookie_ttl_sec-bounds_example :
    (0 < cookie_ttl_sec (some allowing)) × (cookie_ttl_sec (some allowing) ≤ 315576000)
cookie_ttl_sec-bounds_example = cookie_ttl_sec-bounds (some allowing)

-- Three calls: the schema, a chunk of two rows, and one more that the cap cuts.
abbrev fetches : ℕ → Turn
fetches n = record {
  fetched = chunk n;
  cause = no_cause;
  encodes_schema = true;
  encodes_rows = true;
  encodes_end = true;
  encodes_error = true;
  what = [];
  written = true;
}

abbrev turns : List Turn
turns = fetches 0 ∷ fetches 2 ∷ fetches 5 ∷ []

fetches-IsSized : (n : ℕ) → n ≤ 2048 → IsSized 2048 (fetches n)
fetches-IsSized n h m e = ground arith

stream-IsProtocol_example : IsProtocol (stream toy_string_util (new_ctx 3 false) turns)
stream-IsProtocol_example = stream-IsProtocol toy_string_util 3 false turns

stream-rows_example :
    (rows_in (stream toy_string_util (new_ctx 3 true) turns) ≤ 3)
    × Counts 0 (stream toy_string_util (new_ctx 3 true) turns)
stream-rows_example = stream-rows toy_string_util 3 2048 true turns (omega arith) (omega arith) (
  fetches-IsSized 0 (omega arith),
  (fetches-IsSized 2 (omega arith), (fetches-IsSized 5 (omega arith), tt)),
)
