-- ===== src/Crypto/Hex.antt =====
-- src/harbor_crypto.cpp: `BytesToHex`, `ConstantTimeEqual` and `PrincipalAbbrev`.
use duckdb_flock.Base.{
  ℕ, ◌*◌, ◌/◌, ◌%◌, ◌≡◌, refl, Bool, true, ◌&&◌, ◌||◌, [], ◌∷◌, Bytes, codes, get_or, take, length,
  bytes_eq, bytes_eq_refl, bytes_eq→eq, all, all_below, all_below_sound, arith, ◌==◌, leb,
  if◌then◌else◌,
}

-- `kHexChars[i]`.
unfoldable pub hex_char : ℕ → ℕ
hex_char i = get_or (codes "0123456789abcdef") i 0

unfoldable pub bytes_to_hex : Bytes → Bytes
unfolding hex_char
bytes_to_hex [] = []
bytes_to_hex (b ∷ bytes) = hex_char (b / 16 % 16) ∷ hex_char (b % 16) ∷ bytes_to_hex bytes

-- `is_digit || is_lower_hex`.
unfoldable pub is_lower_hex : ℕ → Bool
is_lower_hex c = leb b'0' c && leb c b'9' || leb b'a' c && leb c b'f'

-- A principal is 64 lower-case hex characters.
unfoldable pub is_valid_principal_hex : Bytes → Bool
unfolding is_lower_hex
is_valid_principal_hex s = length s == 64 && all is_lower_hex s

-- `CRYPTO_memcmp` over texts of one length is nonzero exactly when they differ.
unfoldable pub constant_time_equal : Bytes → Bytes → Bool
unfolding bytes_eq
constant_time_equal a b = length a == length b && bytes_eq a b

unfoldable pub principal_abbrev : Bytes → Bytes
principal_abbrev principal_hex =
    if leb (length principal_hex) 8 then principal_hex else take 8 principal_hex

pub constant_time_equal→eq : (a b : Bytes) → constant_time_equal a b ≡ true → a ≡ b
unfolding constant_time_equal
constant_time_equal→eq a b h = bytes_eq→eq a b (ground arith)

pub constant_time_equal_refl : (a : Bytes) → constant_time_equal a a ≡ true
unfolding constant_time_equal
constant_time_equal_refl a = ground (arith, bytes_eq_refl a)

hex_table : all_below 16 (λ i. is_lower_hex (hex_char i)) ≡ true
unfolding all_below hex_char is_lower_hex
hex_table = refl

length-bytes_to_hex : (bytes : Bytes) → length (bytes_to_hex bytes) ≡ 2 * length bytes
unfolding bytes_to_hex
length-bytes_to_hex [] = refl
length-bytes_to_hex (b ∷ bytes) = omega (arith, length-bytes_to_hex bytes)

all-bytes_to_hex : (bytes : Bytes) → all is_lower_hex (bytes_to_hex bytes) ≡ true
unfolding bytes_to_hex
all-bytes_to_hex [] = refl
all-bytes_to_hex (b ∷ bytes) =
    rw
      (
        all_below_sound 16 _ (b / 16 % 16) hex_table (omega arith),
        all_below_sound 16 _ (b % 16) hex_table (omega arith),
      )
      (all-bytes_to_hex bytes)

-- The hex form of 32 bytes is a well-formed principal.
pub bytes_to_hex-IsPrincipal :
    (bytes : Bytes) → length bytes ≡ 32 → is_valid_principal_hex (bytes_to_hex bytes) ≡ true
unfolding is_valid_principal_hex
bytes_to_hex-IsPrincipal bytes h =
    rw (all-bytes_to_hex bytes) (ground (arith, length-bytes_to_hex bytes))
