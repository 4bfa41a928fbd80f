-- ===== src/Sql/Params/Tokens/Strings.antt =====
-- `ParseString` reads what `JsonWriter::WriteEscapedString` writes.
use duckdb_flock.Base.{
  ℕ, ◌+◌, ◌*◌, ◌/◌, ◌%◌, ◌<◌, ◌≤◌, ◌≡◌, refl, Bool, false, none, some, List, ◌∷◌, ◌++◌, Bytes, All,
  ok, ◌==◌, arith, all_below, all_below_sound,
}
use duckdb_flock.Crypto.Hex.{hex_char}
use duckdb_flock.Sql.Utf8.{IsScalar}
use duckdb_flock.Sql.JsonWriter.{escape_step, write_escaped_string}
use duckdb_flock.Sql.JsonWriter.Escaping.{encode_all, encode_ascii, write_escaped_string-through}
use duckdb_flock.Sql.Params.Tokens.{
  skip_whitespace, is_json_space, hex_value, in_text, in_escape, push, append, simple_escape,
  string_loop, string_here, parse_string,
}

is_some_hex : ℕ → Bool
is_some_hex i = elim (hex_value (hex_char i)) [ none ↦ false | some v ↦ v == i ]

hex_value-hex_char : (i : ℕ) → i < 16 → hex_value (hex_char i) ≡ some i
unfolding is_some_hex hex_value hex_char all_below
hex_value-hex_char i h = ground (arith, all_below_sound 16 is_some_hex i refl h)

-- A `\u00XX` escape behind the backslash gives one byte.
pub unicode-read :
    (h l : ℕ) (out : Bytes)
    → h < 8
    → l < 16
    → string_loop in_escape (b'u' ∷ b'0' ∷ b'0' ∷ hex_char h ∷ hex_char l ∷ out)
      ≡ push (h * 16 + l) (string_loop in_text out)
unfolding string_loop append push hex_value
unicode-read h l out p q = ground (
  arith,
  hex_value-hex_char h (omega arith),
  hex_value-hex_char l q,
  encode_ascii (h * 16 + l) (omega arith),
)

ascii-read :
    (b : ℕ) (rest out : Bytes)
    → b < 128
    → string_loop in_text ((escape_step b rest).0 ++ out) ≡ push b (string_loop in_text out)
unfolding escape_step string_loop simple_escape
ascii-read b rest out h =
    ground (arith, unicode-read (b / 16 % 16) (b % 16) out (omega arith) (omega arith))

pub high-read :
    (c : ℕ) (out : Bytes)
    → 128 ≤ c
    → string_loop in_text (c ∷ out) ≡ push c (string_loop in_text out)
unfolding string_loop
high-read c out h = ground arith

-- What `JsonWriter::WriteEscapedString` writes of a text of UTF-8, `ParseString` reads back, whatever
-- characters the text has, and it stops right behind the closing quote.
pub parse_string-write_escaped_string :
    (cps : List ℕ) (out : Bytes)
    → All IsScalar cps
    → parse_string (write_escaped_string (encode_all cps) ++ out) ≡ ok (encode_all cps, out)
unfolding parse_string string_here skip_whitespace is_json_space string_loop push
parse_string-write_escaped_string cps out h =
    let (r, written, read) =
      write_escaped_string-through (string_loop in_text) push ascii-read high-read
        (λ s rest. ok (s, rest)) (λ rest. refl) (λ c s rest. refl) cps out h in
    rw written read
