-- ===== src/Sql/Params/Tokens/Whole.antt =====
-- `ParseRawValue` takes a value that the JSON writer wrote, and no more.
use duckdb_flock.Base.{
  ℕ, ◌≡◌, ◌≢◌, refl, ap, ◌∙◌, true, false, some, [], ◌∷◌, ◌++◌, Bytes, codes, length, All, ok,
  or_throw, arith, append_assoc, inl, inr,
}
use duckdb_flock.Sql.JsonWriter.{escape_loop, write_escaped_string}
use duckdb_flock.Sql.JsonWriter.Tree.{
  Json, Elements, Members, null, bool, string, number, array_of, object_of, text, elements_text,
  members_text,
}
use duckdb_flock.Sql.Params.Tokens.{
  skip_whitespace, is_json_space, cons_raw, raw_string, raw_nested, raw_literal, ends_literal,
  literal_value, raw_here, parse_raw_value, unterminated_string, unterminated_nested,
}
use duckdb_flock.Sql.Params.Tokens.Scan.{cons_all, cons_all-some, loop-scan}
use duckdb_flock.Sql.Params.Tokens.Values.{
  IsNumeric, HasNumbers, is_numeric, all-IsNumeric, IsBrackets, Passes, elements-Passes,
  members-Passes,
}

-- What follows is nothing, or a comma, a closing bracket or white space.
abbrev pub Delimited : Bytes → Type 0
Delimited [] = Unit
Delimited (c ∷ out) = ends_literal c ≡ true

raw_literal-numeric :
    (t out : Bytes) → All IsNumeric t → Delimited out → raw_literal (t ++ out) ≡ (t, out)
unfolding raw_literal
raw_literal-numeric [] [] h k = refl
raw_literal-numeric [] (c ∷ out) h k = ground arith
raw_literal-numeric (c ∷ t) out h k =
    let e = h.0.0 in let more = raw_literal-numeric t out h.1 k in ground arith

numeric-whole :
    (t out : Bytes)
    → t ≢ []
    → All IsNumeric t
    → Delimited out
    → parse_raw_value (t ++ out) ≡ ok (t, out)
unfolding parse_raw_value raw_here skip_whitespace literal_value ends_literal
numeric-whole [] out f h k = absurd (f refl)
numeric-whole (c ∷ t) out f h k =
    let (e, p, q, r) = h.0 in let more = raw_literal-numeric (c ∷ t) out h k in ground arith

raw_string-plain :
    (c : ℕ) (out : Bytes) → c ≢ b'"' → c ≢ 92 → raw_string (c ∷ out) ≡ cons_raw c (raw_string out)
unfolding raw_string
raw_string-plain c [] h k = ground arith
raw_string-plain c (e ∷ out) h k = ground arith

raw_string-quote : (out : Bytes) → raw_string (b'"' ∷ out) ≡ some (b'"' ∷ [], out)
unfolding raw_string
raw_string-quote [] = refl
raw_string-quote (e ∷ out) = refl

raw_string-pair :
    (c : ℕ) (out : Bytes) → raw_string (92 ∷ c ∷ out) ≡ cons_raw 92 (cons_raw c (raw_string out))
unfolding raw_string
raw_string-pair c out = refl

string-whole :
    (s out : Bytes)
    → parse_raw_value (write_escaped_string s ++ out) ≡ ok (write_escaped_string s, out)
unfolding parse_raw_value raw_here skip_whitespace is_json_space write_escaped_string
string-whole s out =
    let body = escape_loop (length s) s in
    ap (λ o. or_throw (cons_raw b'"' o) unterminated_string)
      (ap raw_string (append_assoc body (b'"' ∷ []) out)
        ∙ loop-scan raw_string raw_string-plain raw_string-pair (length s) s (b'"' ∷ out)
        ∙ ap (cons_all body) (raw_string-quote out)
        ∙ cons_all-some body (b'"' ∷ []) out)

nested-whole :
    (a z : ℕ) (kind : IsBrackets a z) (s out : Bytes)
    → Passes a z kind 1 s
    → raw_nested a z 0 false (a ∷ ((s ++ (z ∷ [])) ++ out)) ≡ some (a ∷ (s ++ (z ∷ [])), out)
unfolding raw_nested
nested-whole a z kind s out p =
    opened a z kind ((s ++ (z ∷ [])) ++ out)
    ∙ ap (cons_raw a) (
        ap (raw_nested a z 1 false) (append_assoc s (z ∷ []) out)
        ∙ p (z ∷ out)
        ∙ ap (cons_all s) (closed a z kind out)
        ∙ cons_all-some s (z ∷ []) out)
  where
    opened :
        (a z : ℕ) (kind : IsBrackets a z) (t : Bytes)
        → raw_nested a z 0 false (a ∷ t) ≡ cons_raw a (raw_nested a z 1 false t)
    opened a z kind t = ground arith

    closed :
        (a z : ℕ) (kind : IsBrackets a z) (t : Bytes)
        → raw_nested a z 1 false (z ∷ t) ≡ some (z ∷ [], t)
    closed a z kind t = ground arith

bracketed-array :
    (vs : Elements) (out : Bytes)
    → HasNumbers (array_of vs)
    → parse_raw_value (text (array_of vs) ++ out) ≡ ok (text (array_of vs), out)
unfolding parse_raw_value raw_here skip_whitespace is_json_space text HasNumbers
bracketed-array vs out h =
    ap (λ o. or_throw o unterminated_nested)
      (nested-whole b'[' b']' (inl (refl, refl)) (elements_text true vs) out
        (elements-Passes b'[' b']' (inl (refl, refl)) true vs h 1 (omega arith)))

bracketed-object :
    (ms : Members) (out : Bytes)
    → HasNumbers (object_of ms)
    → parse_raw_value (text (object_of ms) ++ out) ≡ ok (text (object_of ms), out)
unfolding parse_raw_value raw_here skip_whitespace is_json_space text HasNumbers
bracketed-object ms out h =
    ap (λ o. or_throw o unterminated_nested)
      (nested-whole b'{' b'}' (inr (refl, refl)) (members_text true ms) out
        (members-Passes b'{' b'}' (inr (refl, refl)) true ms h 1 (omega arith)))

-- A value of the JSON writer whose numbers are sensible, with a delimiter or nothing behind it, is
-- taken whole, whatever strings and brackets it holds.
pub parse_raw_value-text :
    (v : Json) (out : Bytes)
    → HasNumbers v
    → Delimited out
    → parse_raw_value (text v ++ out) ≡ ok (text v, out)
unfolding text HasNumbers is_numeric ends_literal
parse_raw_value-text null out h k =
    numeric-whole (codes "null") out (λ e. cc) (all-IsNumeric (codes "null") refl) k
parse_raw_value-text (bool true) out h k =
    numeric-whole (codes "true") out (λ e. cc) (all-IsNumeric (codes "true") refl) k
parse_raw_value-text (bool false) out h k =
    numeric-whole (codes "false") out (λ e. cc) (all-IsNumeric (codes "false") refl) k
parse_raw_value-text (string s) out h k = string-whole s out
parse_raw_value-text (number t) out h k = numeric-whole t out h.0 h.1 k
parse_raw_value-text (array_of vs) out h k = bracketed-array vs out h
parse_raw_value-text (object_of ms) out h k = bracketed-object ms out h
