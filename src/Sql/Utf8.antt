-- ===== src/Sql/Utf8.antt =====
-- UTF-8: `EncodeUtf8` of src/sql_param_decoder.cpp and `ValidateUtf8` of src/sql_json_writer.cpp.
use duckdb_flock.Base.{
  ℕ, ◌+◌, ◌/◌, ◌%◌, ◌<◌, ◌≤◌, Bool, not, ◌&&◌, ◌||◌, [], ◌∷◌, Bytes, ltb, leb, ◌==◌, if◌then◌else◌,
}

-- `EncodeUtf8`; a byte that is or-ed with a tag has no bit in common with it.
unfoldable pub encode_utf8 : ℕ → Bytes
encode_utf8 cp =
    if ltb cp 128
    then cp ∷ []
    else (if ltb cp 2048
        then (192 + cp / 64) ∷ (128 + cp % 64) ∷ []
        else (if ltb cp 65536
            then (224 + cp / 4096) ∷ (128 + cp / 64 % 64) ∷ (128 + cp % 64) ∷ []
            else (240 + cp / 262144)
              ∷ (128 + cp / 4096 % 64)
              ∷ (128 + cp / 64 % 64)
              ∷ (128 + cp % 64)
              ∷ []))

-- `(b & 0xC0) == 0x80`.
unfoldable pub is_continuation : ℕ → Bool
is_continuation b = b / 64 == 2

abbrev pub validate_two : ℕ → Bytes → ℕ
validate_two byte (b1 ∷ _) = if not (is_continuation b1) then 0 else (if ltb byte 194 then 0 else 2)
validate_two byte _ = 0

abbrev pub validate_three : ℕ → Bytes → ℕ
validate_three byte (b1 ∷ b2 ∷ _) =
    if not (is_continuation b1) || not (is_continuation b2)
    then 0
    else (if byte == 224 && ltb b1 160 then 0 else (if byte == 237 && leb 160 b1 then 0 else 3))
validate_three byte _ = 0

abbrev pub validate_four : ℕ → Bytes → ℕ
validate_four byte (b1 ∷ b2 ∷ b3 ∷ _) =
    if not (is_continuation b1) || not (is_continuation b2) || not (is_continuation b3)
    then 0
    else (if byte == 240 && ltb b1 144
        then 0
        else (if byte == 244 && leb 144 b1 then 0 else (if ltb 244 byte then 0 else 4)))
validate_four byte _ = 0

-- `ValidateUtf8` on the byte at the index and the bytes after it: the length of the sequence, 0 if
-- it is invalid.
unfoldable pub validate_utf8 : ℕ → Bytes → ℕ
unfolding is_continuation
validate_utf8 byte rest =
    if ltb byte 128
    then 1
    else (if byte / 32 == 6
        then validate_two byte rest
        else (if byte / 16 == 14
            then validate_three byte rest
            else (if byte / 8 == 30 then validate_four byte rest else 0)))

-- A code point that UTF-8 encodes.
pub record IsScalar (cp : ℕ) : Type 0 where
  pub in_range : cp < 1114112
  pub no_surrogate : (55296 ≤ cp → 57343 < cp)
