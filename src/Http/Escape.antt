-- ===== src/Http/Escape.antt =====
-- `EscapeJsonString` of src/admin_handlers.cpp, which src/auth_handlers.cpp repeats.
use duckdb_flock.Base.{
  ℕ, ◌+◌, ◌*◌, ◌/◌, ◌%◌, ◌<◌, ◌≤◌, ◌≡◌, refl, ap, ◌∙◌, Bool, true, false, [], ◌∷◌, ◌++◌, Bytes, ok,
  ltb, ◌==◌, if◌then◌else◌, arith, append_assoc, Bool-cases, ltb→lt, inl, inr, ◌||◌,
}
use duckdb_flock.Crypto.Hex.{hex_char}
use duckdb_flock.Sql.Params.Tokens.{
  skip_whitespace, is_json_space, in_text, in_escape, push, simple_escape, string_loop, string_here,
  parse_string,
}
use duckdb_flock.Sql.Params.Tokens.Strings.{unicode-read}

-- One character; `%04x` of a character below 32 has two zeros in front.
unfoldable pub escape_char : ℕ → Bytes
escape_char c =
    if c == b'"'
    then 92 ∷ b'"' ∷ []
    else if c == 92
    then 92 ∷ 92 ∷ []
    else if c == 8
    then 92 ∷ b'b' ∷ []
    else if c == 12
    then 92 ∷ b'f' ∷ []
    else if c == 10
    then 92 ∷ b'n' ∷ []
    else if c == 13
    then 92 ∷ b'r' ∷ []
    else if c == 9
    then 92 ∷ b't' ∷ []
    else if ltb c 32
    then 92 ∷ b'u' ∷ b'0' ∷ b'0' ∷ hex_char (c / 16) ∷ hex_char (c % 16) ∷ []
    else c ∷ []

unfoldable pub escape_json_string : Bytes → Bytes
unfolding escape_char
escape_json_string [] = []
escape_json_string (c ∷ s) = escape_char c ++ escape_json_string s

backslash_read : (out : Bytes) → string_loop in_text (92 ∷ out) ≡ string_loop in_escape out
unfolding string_loop
backslash_read out = refl

escapes : ℕ → Bool
escapes c = c == b'"' || c == 92 || c == 8 || c == 12 || c == 10 || c == 13 || c == 9

known : (c k : ℕ) → (c == k) ≡ true → c ≡ k
known c k e = ground arith

short-read :
    (c : ℕ) (out : Bytes)
    → escapes c ≡ true
    → string_loop in_text (escape_char c ++ out) ≡ push c (string_loop in_text out)
unfolding escapes escape_char string_loop simple_escape
short-read c out s = elim (Bool-cases (c == b'"')) [
  | inl a ↦ rw (known c b'"' a) refl
  | inr a ↦ elim (Bool-cases (c == 92)) [
    | inl b ↦ rw (known c 92 b) refl
    | inr b ↦ elim (Bool-cases (c == 8)) [
      | inl d ↦ rw (known c 8 d) refl
      | inr d ↦ elim (Bool-cases (c == 12)) [
        | inl e ↦ rw (known c 12 e) refl
        | inr e ↦ elim (Bool-cases (c == 10)) [
          | inl f ↦ rw (known c 10 f) refl
          | inr f ↦ elim (Bool-cases (c == 13)) [
            | inl g ↦ rw (known c 13 g) refl
            | inr g ↦ rw (known c 9 (ground arith)) refl
          ]
        ]
      ]
    ]
  ]
]

long-read :
    (c : ℕ) (out : Bytes)
    → escapes c ≡ false
    → c < 32
    → string_loop in_text (escape_char c ++ out) ≡ push c (string_loop in_text out)
unfolding escapes escape_char
long-read c out s h =
    let shape : escape_char c
        ≡ 92 ∷ b'u' ∷ b'0' ∷ b'0' ∷ hex_char (c / 16) ∷ hex_char (c % 16) ∷ [] =
      ground arith in
    let digits : c / 16 * 16 + c % 16 ≡ c = omega arith in
    let read = unicode-read (c / 16) (c % 16) out (omega arith) (omega arith) in
    rw shape (backslash_read _ ∙ read ∙ ap (λ d. push d (string_loop in_text out)) digits)

plain-read :
    (c : ℕ) (out : Bytes)
    → escapes c ≡ false
    → 32 ≤ c
    → string_loop in_text (escape_char c ++ out) ≡ push c (string_loop in_text out)
unfolding escapes escape_char string_loop
plain-read c out s h = let shape : escape_char c ≡ c ∷ [] = ground arith in rw shape (ground arith)

escape_char-read :
    (c : ℕ) (out : Bytes)
    → string_loop in_text (escape_char c ++ out) ≡ push c (string_loop in_text out)
escape_char-read c out = elim (Bool-cases (escapes c)) [
  | inl s ↦ short-read c out s
  | inr s ↦ elim (Bool-cases (ltb c 32)) [
    | inl l ↦ long-read c out s (ltb→lt c 32 l)
    | inr l ↦ plain-read c out s (ground arith)
  ]
]

quote_read : (out : Bytes) → string_loop in_text (b'"' ∷ out) ≡ ok ([], out)
unfolding string_loop
quote_read out = refl

escape_json_string-read :
    (s out : Bytes) → string_loop in_text (escape_json_string s ++ (b'"' ∷ out)) ≡ ok (s, out)
unfolding escape_json_string push
escape_json_string-read [] out = quote_read out
escape_json_string-read (c ∷ s) out =
    rw
      (
        append_assoc (escape_char c) (escape_json_string s) (b'"' ∷ out),
        escape_char-read c (escape_json_string s ++ (b'"' ∷ out)),
        escape_json_string-read s out,
      )
      refl

-- Whatever bytes a text has, what `EscapeJsonString` puts between the quotes is read back by
-- `ParseString` as that text, up to the closing quote and no further.
pub parse_string-escape_json_string :
    (s out : Bytes) → parse_string (b'"' ∷ (escape_json_string s ++ (b'"' ∷ out))) ≡ ok (s, out)
unfolding parse_string string_here skip_whitespace is_json_space
parse_string-escape_json_string s out = escape_json_string-read s out
