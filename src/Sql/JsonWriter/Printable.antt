-- ===== src/Sql/JsonWriter/Printable.antt =====
-- What `WriteEscapedString` may write for any bytes, valid UTF-8 or not.
use duckdb_flock.Base.{
  ℕ, zero, suc, ◌/◌, ◌%◌, ◌<◌, ◌≤◌, refl, [], ◌∷◌, Bytes, length, take, All, All-append, ltb, leb,
  arith, all_below, all_below_sound, Bool-cases, inl, inr,
}
use duckdb_flock.Crypto.Hex.{hex_char}
use duckdb_flock.Sql.Utf8.{
  validate_utf8, is_continuation, validate_two, validate_three, validate_four,
}
use duckdb_flock.Sql.JsonWriter.{escape_step, escape_loop, write_escaped_string, replacement}

-- No control character.
abbrev pub IsVisible : ℕ → Type 0
IsVisible c = 32 ≤ c

hex_char-IsVisible : (i : ℕ) → i < 16 → 32 ≤ hex_char i
unfolding hex_char all_below
hex_char-IsVisible i h = ground (arith, all_below_sound 16 (λ j. leb 32 (hex_char j)) i refl h)

-- Above the ASCII range.
abbrev pub IsHigh : ℕ → Type 0
IsHigh c = 128 ≤ c

two-IsHigh :
    (byte : ℕ) (rest : Bytes)
    → 128 ≤ byte
    → All IsHigh (take (validate_two byte rest) (byte ∷ rest))
unfolding is_continuation
two-IsHigh byte [] h = tt
two-IsHigh byte (b1 ∷ rest) h = ground arith

three-IsHigh :
    (byte : ℕ) (rest : Bytes)
    → 128 ≤ byte
    → All IsHigh (take (validate_three byte rest) (byte ∷ rest))
unfolding is_continuation
three-IsHigh byte [] h = tt
three-IsHigh byte (b1 ∷ []) h = tt
three-IsHigh byte (b1 ∷ b2 ∷ rest) h = ground arith

four-IsHigh :
    (byte : ℕ) (rest : Bytes)
    → 128 ≤ byte
    → All IsHigh (take (validate_four byte rest) (byte ∷ rest))
unfolding is_continuation
four-IsHigh byte [] h = tt
four-IsHigh byte (b1 ∷ []) h = tt
four-IsHigh byte (b1 ∷ b2 ∷ []) h = tt
four-IsHigh byte (b1 ∷ b2 ∷ b3 ∷ rest) h = ground arith

pub sequence-IsHigh :
    (byte : ℕ) (rest : Bytes)
    → 128 ≤ byte
    → All IsHigh (take (validate_utf8 byte rest) (byte ∷ rest))
unfolding validate_utf8
sequence-IsHigh byte rest h =
    ground (arith, two-IsHigh byte rest h, three-IsHigh byte rest h, four-IsHigh byte rest h)

IsHigh-IsVisible : (s : Bytes) → All IsHigh s → All IsVisible s
IsHigh-IsVisible [] h = tt
IsHigh-IsVisible (c ∷ s) h = let k = h.0 in (omega arith, IsHigh-IsVisible s h.1)

step-IsVisible : (byte : ℕ) (rest : Bytes) → All IsVisible (escape_step byte rest).0
unfolding escape_step replacement
step-IsVisible byte rest = elim (Bool-cases (ltb byte 128)) [
  | inl e ↦ ground (
    arith,
    hex_char-IsVisible (byte / 16 % 16) (omega arith),
    hex_char-IsVisible (byte % 16) (omega arith),
  )
  | inr e ↦ ground (arith, IsHigh-IsVisible _ (sequence-IsHigh byte rest (ground arith)))
]

loop-IsVisible : (fuel : ℕ) (s : Bytes) → All IsVisible (escape_loop fuel s)
unfolding escape_loop
loop-IsVisible zero s = tt
loop-IsVisible (suc fuel) [] = tt
loop-IsVisible (suc fuel) (byte ∷ rest) =
    All-append IsVisible (escape_step byte rest).0 _ (step-IsVisible byte rest)
      (loop-IsVisible fuel _)

-- Whatever bytes the text has, what `WriteEscapedString` writes has no control character.
pub write_escaped_string-IsVisible : (s : Bytes) → All IsVisible (write_escaped_string s)
unfolding write_escaped_string
write_escaped_string-IsVisible s = (
  omega arith,
  All-append IsVisible (escape_loop (length s) s) _ (loop-IsVisible (length s) s) (omega arith, tt),
)
