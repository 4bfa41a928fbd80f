-- ===== src/Sql/Params/Tokens.antt =====
-- src/sql_param_decoder.cpp: `SkipWhitespace`, `ConsumeChar`, `ParseString` and `ParseRawValue`. A
-- position in the text is the text from there on; what an error says of it is left out.
pub mod Strings
pub mod Raw
pub mod Scan
pub mod Values
pub mod Whole
use duckdb_flock.Base.{
  ℕ, zero, suc, ◌+◌, ◌-◌, ◌*◌, Bool, true, false, not, ◌&&◌, ◌||◌, Option, none, some, List, [],
  ◌∷◌, ◌++◌, Bytes, length, is_empty, Result, ok, err, ◌>>=◌, or_throw, ltb, leb, ◌==◌,
  if◌then◌else◌,
}
use duckdb_flock.Sql.Utf8.{encode_utf8}

pub data ParamError : Type 0 where
  expected_char expected_string unterminated_escape truncated_unicode invalid_hex unknown_escape :
      ParamError
  unterminated_string end_of_input unterminated_nested expected_value not_an_object missing_sql :
      ParamError
  wrong_null wrong_boolean not_coercible object_not_struct unknown_field duplicate_field
        assembly_failed :
      ParamError
  array_not_list bad_pair array_length unexpected_char no_type no_value bad_type : ParamError
  too_few_parameters too_many_parameters out_of_fuel : ParamError

unfoldable pub is_json_space : ℕ → Bool
is_json_space c = c == b' ' || c == 9 || c == 10 || c == 13

unfoldable pub skip_whitespace : Bytes → Bytes
unfolding is_json_space
skip_whitespace [] = []
skip_whitespace (c ∷ json) =
    let rest = skip_whitespace json in if is_json_space c then rest else c ∷ json

unfoldable pub consume_here : ℕ → Bytes → Result ParamError Bytes
consume_here expected [] = err expected_char
consume_here expected (c ∷ json) = if c == expected then ok json else err expected_char

unfoldable pub consume_char : ℕ → Bytes → Result ParamError Bytes
unfolding consume_here skip_whitespace
consume_char expected json = consume_here expected (skip_whitespace json)

-- `HexValue`; `none` is -1.
unfoldable pub hex_value : ℕ → Option ℕ
hex_value c =
    if leb b'0' c && leb c b'9'
    then some (c - b'0')
    else if leb b'a' c && leb c b'f'
    then some (10 + (c - b'a'))
    else if leb b'A' c && leb c b'F'
    then some (10 + (c - b'A'))
    else none

-- Where the loop of `ParseString` stands: in the text, after a backslash, or in a `\u` escape with
-- so many digits still to come after the next one, and the value so far.
pub data StringState : Type 0 where
  in_text in_escape : StringState
  in_unicode : ℕ → ℕ → StringState

-- `out.push_back(c)`, in front of what the rest of the loop appends.
unfoldable pub push : ℕ → Result ParamError (Bytes × Bytes) → Result ParamError (Bytes × Bytes)
push c (err e) = err e
push c (ok (s, rest)) = ok (c ∷ s, rest)

unfoldable pub append :
    Bytes → Result ParamError (Bytes × Bytes) → Result ParamError (Bytes × Bytes)
append out (err e) = err e
append out (ok (s, rest)) = ok (out ++ s, rest)

-- The escapes of one character.
unfoldable pub simple_escape : ℕ → Option ℕ
simple_escape c =
    if c == b'"'
    then some b'"'
    else if c == 92
    then some 92
    else if c == b'/'
    then some b'/'
    else if c == b'b'
    then some 8
    else if c == b'f'
    then some 12
    else if c == b'n'
    then some 10
    else if c == b'r'
    then some 13
    else if c == b't'
    then some 9
    else none

-- The loop of `ParseString`, behind the opening quote: the string, and the text behind its end.
unfoldable pub string_loop : StringState → Bytes → Result ParamError (Bytes × Bytes)
unfolding hex_value push append simple_escape
string_loop in_text [] = err unterminated_string
string_loop in_text (c ∷ json) =
    let plain = push c (string_loop in_text json) in
    let escaped = string_loop in_escape json in
    if c == b'"' then ok ([], json) else if c == 92 then escaped else plain
string_loop in_escape [] = err unterminated_escape
string_loop in_escape (c ∷ json) =
    let simple = string_loop in_text json in
    let unicode = string_loop (in_unicode 3 0) json in
    if c == b'u'
    then (if ltb (length json) 4 then err truncated_unicode else unicode)
    else elim (simple_escape c) [ none ↦ err unknown_escape | some d ↦ push d simple ]
string_loop (in_unicode n cp) [] = err truncated_unicode
string_loop (in_unicode zero cp) (c ∷ json) =
    let more = string_loop in_text json in
    elim (hex_value c) [ none ↦ err invalid_hex | some v ↦ append (encode_utf8 (cp * 16 + v)) more ]
string_loop (in_unicode (suc n) cp) (c ∷ json) =
    let more : ℕ → Result ParamError (Bytes × Bytes) =
      λ v. string_loop (in_unicode n (cp * 16 + v)) json in
    elim (hex_value c) [ none ↦ err invalid_hex | some v ↦ more v ]

unfoldable pub string_here : Bytes → Result ParamError (Bytes × Bytes)
unfolding string_loop
string_here [] = err expected_string
string_here (c ∷ json) =
    let s = string_loop in_text json in if c == b'"' then s else err expected_string

unfoldable pub parse_string : Bytes → Result ParamError (Bytes × Bytes)
unfolding string_here skip_whitespace
parse_string json = string_here (skip_whitespace json)

abbrev pub cons_raw : ℕ → Option (Bytes × Bytes) → Option (Bytes × Bytes)
cons_raw c none = none
cons_raw c (some (raw, rest)) = some (c ∷ raw, rest)

-- The scan of a string behind its opening quote: the text up to and with the closing quote.
unfoldable pub raw_string : Bytes → Option (Bytes × Bytes)
raw_string [] = none
raw_string (c ∷ []) = if c == b'"' then some (c ∷ [], []) else none
raw_string (c ∷ d ∷ json) =
    let skipped = cons_raw c (cons_raw d (raw_string json)) in
    let next = cons_raw c (raw_string (d ∷ json)) in
    if c == 92 then skipped else if c == b'"' then some (c ∷ [], d ∷ json) else next

-- The scan of an object or an array: bracket by bracket of its own kind, outside strings.
unfoldable pub raw_nested : ℕ → ℕ → ℕ → Bool → Bytes → Option (Bytes × Bytes)
raw_nested start close depth in_string [] = none
raw_nested start close depth true (c ∷ []) = none
raw_nested start close depth true (c ∷ d ∷ json) =
    let skipped = cons_raw c (cons_raw d (raw_nested start close depth true json)) in
    let ended = cons_raw c (raw_nested start close depth false (d ∷ json)) in
    let next = cons_raw c (raw_nested start close depth true (d ∷ json)) in
    if c == 92 then skipped else if c == b'"' then ended else next
raw_nested start close depth false (c ∷ json) =
    let quoted = cons_raw c (raw_nested start close depth true json) in
    let deeper = cons_raw c (raw_nested start close (suc depth) false json) in
    let shallower = cons_raw c (raw_nested start close (depth - 1) false json) in
    let next = cons_raw c (raw_nested start close depth false json) in
    if c == b'"'
    then quoted
    else if c == start
    then deeper
    else if c == close
    then (if depth == 1 then some (c ∷ [], json) else shallower)
    else next

-- A literal or a number goes up to a comma, a closing bracket or white space.
unfoldable pub ends_literal : ℕ → Bool
unfolding is_json_space
ends_literal c = c == b',' || c == b']' || c == b'}' || is_json_space c

unfoldable pub raw_literal : Bytes → Bytes × Bytes
unfolding ends_literal
raw_literal [] = ([], [])
raw_literal (c ∷ json) =
    let (raw, rest) = raw_literal json in if ends_literal c then ([], c ∷ json) else (c ∷ raw, rest)

unfoldable pub literal_value : Bytes × Bytes → Result ParamError (Bytes × Bytes)
literal_value ([], rest) = err expected_value
literal_value (c ∷ raw, rest) = ok (c ∷ raw, rest)

unfoldable pub raw_here : Bytes → Result ParamError (Bytes × Bytes)
unfolding raw_string raw_nested raw_literal literal_value
raw_here [] = err end_of_input
raw_here (c ∷ json) =
    if c == b'"'
    then or_throw (cons_raw c (raw_string json)) unterminated_string
    else if c == b'{'
    then or_throw (raw_nested b'{' b'}' 0 false (c ∷ json)) unterminated_nested
    else if c == b'['
    then or_throw (raw_nested b'[' b']' 0 false (c ∷ json)) unterminated_nested
    else literal_value (raw_literal (c ∷ json))

-- `ParseRawValue`: the text of the value, and the text behind it.
unfoldable pub parse_raw_value : Bytes → Result ParamError (Bytes × Bytes)
unfolding raw_here skip_whitespace
parse_raw_value json = raw_here (skip_whitespace json)
