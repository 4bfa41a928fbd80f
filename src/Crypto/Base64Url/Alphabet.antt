-- ===== src/Crypto/Base64Url/Alphabet.antt =====
-- The base64url alphabet: its characters and the reverse map agree.
use duckdb_flock.Base.{
  ℕ, ◌<◌, ◌≡◌, ◌≢◌, refl, Bool, true, not, ◌&&◌, arith, all_below, all_below_sound, ◌==◌, ==_iff,
  leb,
}
use duckdb_flock.Crypto.Base64Url.{b64_char, b64_reverse}

b64_reverse_table : all_below 64 (λ i. b64_reverse (b64_char i) == i) ≡ true
unfolding all_below b64_char b64_reverse
b64_reverse_table = refl

-- The reverse map undoes the alphabet.
pub b64_reverse-b64_char : (i : ℕ) → i < 64 → b64_reverse (b64_char i) ≡ i
b64_reverse-b64_char i h = (==_iff _ i).0 (all_below_sound 64 _ i b64_reverse_table h)

-- The characters are ASCII and none of them is the dot or the padding.
abbrev is_plain : ℕ → Bool
is_plain c = leb c 127 && (not (c == b'.') && not (c == b'='))

plain_table : all_below 64 (λ i. is_plain (b64_char i)) ≡ true
unfolding all_below b64_char
plain_table = refl

pub b64_char-plain :
    (i : ℕ) → i < 64 → (b64_char i < 128) × (b64_char i ≢ b'.') × (b64_char i ≢ b'=')
b64_char-plain i h = plain_means (b64_char i) (all_below_sound 64 _ i plain_table h)
  where
    plain_means : (c : ℕ) → is_plain c ≡ true → (c < 128) × (c ≢ b'.') × (c ≢ b'=')
    plain_means c p = ground arith
