-- ===== src/Sql/Params/Request/Written.antt =====
-- `ParseRequest` on an object that the JSON writer wrote.
use duckdb_flock.Base.{
  ℕ, zero, suc, ◌<◌, ◌≡◌, ◌⊎◌, refl, sym, ap, ◌∙◌, Bool, true, false, List, [], ◌∷◌, ◌++◌, Bytes,
  codes, length, length-append, All, ok, if◌then◌else◌, arith, inl, inr, bytes_eq, Bool-cases,
  append_assoc, append-nil,
}
use duckdb_flock.Sql.Utf8.{IsScalar}
use duckdb_flock.Sql.JsonWriter.{write_escaped_string}
use duckdb_flock.Sql.JsonWriter.Escaping.{encode_all}
use duckdb_flock.Sql.JsonWriter.Tree.{
  Json, Members, no_member, member, string, object_of, separator, text, members_text,
}
use duckdb_flock.Sql.Params.Tokens.{
  skip_whitespace, is_json_space, consume_here, consume_char, parse_string, ends_literal,
}
use duckdb_flock.Sql.Params.Tokens.Strings.{parse_string-write_escaped_string}
use duckdb_flock.Sql.Params.Tokens.Values.{HasNumbers}
use duckdb_flock.Sql.Params.Tokens.Whole.{Delimited, parse_raw_value-text}
use duckdb_flock.Sql.Params.Request.{
  ParsedRequest, empty_request, ends_object, store_member, skip_comma, parse_member, request_loop,
  check_sql, request_here, parse_request,
}

-- A text in UTF-8.
abbrev pub IsText : Bytes → Type 0
IsText s = (cps : List ℕ) × All IsScalar cps × (s ≡ encode_all cps)

abbrev pub string_of : Json → Bytes
string_of (string s) = s
string_of _ = []

-- What a member means to a request: a later one with the same key counts.
abbrev pub note : Bytes → Json → ParsedRequest → ParsedRequest
note name v r =
    if bytes_eq name (codes "sql")
    then record r { sql = string_of v }
    else if bytes_eq name (codes "sessionId")
    then record r { session_id = string_of v }
    else if bytes_eq name (codes "params")
    then record r { params_json = text v }
    else r

abbrev pub request_of : Members → ParsedRequest → ParsedRequest
request_of no_member r = r
request_of (member name v ms) r = request_of ms (note name v r)

-- The keys are texts, the numbers are sensible, and the values of the two keys that want a string are
-- strings.
abbrev pub Readable : Members → Type 0
Readable no_member = Unit
Readable (member name v ms) =
    IsText name
    × HasNumbers v
    × ((bytes_eq name (codes "sql") ≡ true) ⊎ (bytes_eq name (codes "sessionId") ≡ true)
        → (s : Bytes) × (v ≡ string s) × IsText s)
    × Readable ms

string-text :
    (s out : Bytes) → IsText s → parse_string (write_escaped_string s ++ out) ≡ ok (s, out)
string-text s out (cps, scalars, e) = rw e (parse_string-write_escaped_string cps out scalars)

value-text :
    (v : Json) (s : Bytes) → v ≡ string s → IsText s → parse_string (text v) ≡ ok (string_of v, [])
unfolding text
value-text v s e t =
    rw e (ap parse_string (sym (append-nil (write_escaped_string s))) ∙ string-text s [] t)

store_member-text :
    (name : Bytes) (v : Json) (r : ParsedRequest)
    → ((bytes_eq name (codes "sql") ≡ true) ⊎ (bytes_eq name (codes "sessionId") ≡ true)
        → (s : Bytes) × (v ≡ string s) × IsText s)
    → store_member name (text v) r ≡ ok (note name v r)
unfolding store_member
store_member-text name v r h = elim (Bool-cases (bytes_eq name (codes "sql"))) [
  | inl a ↦ let (s, e, t) = h (inl a) in rw (a, value-text v s e t) refl
  | inr a ↦ elim (Bool-cases (bytes_eq name (codes "sessionId"))) [
    | inl b ↦ let (s, e, t) = h (inr b) in rw (a, b, value-text v s e t) refl
    | inr b ↦ elim (Bool-cases (bytes_eq name (codes "params"))) [
      | inl c ↦ rw (a, b, c) refl
      | inr c ↦ rw (a, b, c) refl
    ]
  ]
]

skip_comma-separator :
    (first : Bool) (s out : Bytes)
    → skip_comma first (separator first ++ (write_escaped_string s ++ out))
      ≡ ok (write_escaped_string s ++ out)
unfolding skip_comma consume_char consume_here skip_whitespace is_json_space write_escaped_string
skip_comma-separator true s out = refl
skip_comma-separator false s out = refl

colon-text : (out : Bytes) → consume_char b':' (b':' ∷ out) ≡ ok out
unfolding consume_char consume_here skip_whitespace is_json_space
colon-text out = refl

parse_member-text :
    (first : Bool) (name : Bytes) (v : Json) (out : Bytes) (r : ParsedRequest)
    → IsText name
    → HasNumbers v
    → ((bytes_eq name (codes "sql") ≡ true) ⊎ (bytes_eq name (codes "sessionId") ≡ true)
        → (s : Bytes) × (v ≡ string s) × IsText s)
    → Delimited out
    → parse_member first
        (separator first ++ (write_escaped_string name ++ (b':' ∷ (text v ++ out))))
        r
      ≡ ok (note name v r, out)
unfolding parse_member
parse_member-text first name v out r t n h k =
    rw
      (
        skip_comma-separator first name (b':' ∷ (text v ++ out)),
        string-text name (b':' ∷ (text v ++ out)) t,
        colon-text (text v ++ out),
        parse_raw_value-text v out n k,
        store_member-text name v r h,
      )
      refl

ends_object-separator :
    (first : Bool) (s out : Bytes)
    → (skip_whitespace (separator first ++ (write_escaped_string s ++ out))
        ≡ separator first ++ (write_escaped_string s ++ out))
      × (ends_object (separator first ++ (write_escaped_string s ++ out)) ≡ false)
unfolding ends_object skip_whitespace is_json_space write_escaped_string
ends_object-separator true s out = (refl, refl)
ends_object-separator false s out = (refl, refl)

Delimited-members : (ms : Members) → Delimited (members_text false ms ++ (b'}' ∷ []))
unfolding members_text ends_literal is_json_space
Delimited-members no_member = refl
Delimited-members (member name v ms) = refl

member-split :
    (first : Bool) (name : Bytes) (v : Json) (ms : Members) (out : Bytes)
    → members_text first (member name v ms) ++ out
      ≡ separator first
        ++ (write_escaped_string name ++ (b':' ∷ (text v ++ (members_text false ms ++ out))))
unfolding members_text
member-split first name v ms out =
    let rest = members_text false ms in
    append_assoc (separator first) (write_escaped_string name ++ (b':' ∷ (text v ++ rest))) out
    ∙ ap (λ s. separator first ++ s)
        (append_assoc (write_escaped_string name) (b':' ∷ (text v ++ rest)) out
          ∙ ap (λ s. write_escaped_string name ++ (b':' ∷ s)) (append_assoc (text v) rest out))

member-length :
    (first : Bool) (name : Bytes) (v : Json) (ms : Members)
    → length (members_text false ms) < length (members_text first (member name v ms))
unfolding members_text
member-length first name v ms = omega (
  arith,
  length-append (separator first)
      (write_escaped_string name ++ (b':' ∷ (text v ++ members_text false ms))),
  length-append (write_escaped_string name) (b':' ∷ (text v ++ members_text false ms)),
  length-append (text v) (members_text false ms),
)

request_loop-ended :
    (fuel : ℕ) (first : Bool) (r : ParsedRequest)
    → request_loop (suc fuel) first (members_text first no_member ++ (b'}' ∷ [])) r ≡ ok r
unfolding request_loop members_text ends_object skip_whitespace is_json_space
request_loop-ended fuel first r = refl

request_loop-text :
    (ms : Members) (fuel : ℕ) (first : Bool) (r : ParsedRequest)
    → Readable ms
    → length (members_text first ms) < fuel
    → request_loop fuel first (members_text first ms ++ (b'}' ∷ [])) r ≡ ok (request_of ms r)
unfolding request_loop
request_loop-text ms zero first r h k = absurd (omega arith)
request_loop-text no_member (suc fuel) first r h k = request_loop-ended fuel first r
request_loop-text (member name v ms) (suc fuel) first r (t, n, s, h) k =
    let out = members_text false ms ++ (b'}' ∷ []) in
    let (skipped, goes) = ends_object-separator first name (b':' ∷ (text v ++ out)) in
    rw
      (
        member-split first name v ms (b'}' ∷ []),
        skipped,
        goes,
        parse_member-text first name v out r t n s (Delimited-members ms),
      )
      (let l = member-length first name v ms in
        request_loop-text ms fuel false (note name v r) h (omega arith))

-- The body that the JSON writer makes of an object is read back member by member, if the keys are in
-- UTF-8, the numbers of the values are made of the characters of numbers, and the values of `sql` and
-- `sessionId` are strings in UTF-8: `sql` and `sessionId` come out as those strings, `params` as the
-- text of its value, whatever strings and brackets it holds, unknown keys count for nothing, of two
-- members with one key the later counts, and the only error is an empty `sql`.
pub parse_request-text :
    (ms : Members)
    → Readable ms
    → parse_request (text (object_of ms)) ≡ check_sql (request_of ms empty_request)
unfolding parse_request request_here skip_whitespace is_json_space text
parse_request-text ms h =
    let body = members_text true ms ++ (b'}' ∷ []) in
    rw
      (request_loop-text ms (suc (length body)) true empty_request h
        (omega (arith, length-append (members_text true ms) (b'}' ∷ []))))
      refl
