-- ===== src/Crypto/Base64Url.antt =====
-- src/harbor_crypto.cpp: `Base64UrlEncode` and `Base64UrlDecode` (RFC 4648, section 5).
pub mod Alphabet
pub mod RoundTrip
use duckdb_flock.Base.{
  ℕ, zero, suc, ◌+◌, ◌-◌, ◌*◌, ◌/◌, ◌%◌, ◌^◌, Bool, List, [], ◌∷◌, ◌++◌, Bytes, codes, get_or, set,
  replicate, length, Result, ok, err, ◌>>=◌, ◌==◌, leb, if◌then◌else◌,
}

-- The `std::runtime_error`s of the file.
pub data CryptoError : Type 0 where
  invalid_character hmac_failed no_entropy : CryptoError

-- The 64 characters, by their 6-bit values.
unfoldable pub b64_url_chars : Bytes
b64_url_chars = codes "ABCDEFGHIJKLMNOPQRSTUVWXYZabcdefghijklmnopqrstuvwxyz0123456789-_"

-- `kB64UrlChars[i]`.
unfoldable pub b64_char : ℕ → ℕ
unfolding b64_url_chars
b64_char i = get_or b64_url_chars i 0

-- `map[kB64UrlChars[i]] = i` for the values from `i` on.
fill_reverse : ℕ → Bytes → List ℕ → List ℕ
fill_reverse i [] map = map
fill_reverse i (c ∷ chars) map = fill_reverse (suc i) chars (set map c i)

-- Every slot is 0xFF but those of the 64 characters.
unfoldable pub build_b64_url_reverse_map : List ℕ
unfolding fill_reverse b64_url_chars
build_b64_url_reverse_map = fill_reverse 0 b64_url_chars (replicate 256 0xff)

-- `kB64UrlReverse[c]`.
unfoldable pub b64_reverse : ℕ → ℕ
unfolding build_b64_url_reverse_map
b64_reverse c = get_or build_b64_url_reverse_map c 0xff

-- `kB64UrlChars[(v >> k) & 0x3F]`.
abbrev pub sextet : ℕ → ℕ → ℕ
sextet v k = b64_char (v / 2 ^ k % 64)

-- Whole groups of three bytes first, then a remainder of one or two, with no padding.
unfoldable pub base64_url_encode : Bytes → Bytes
base64_url_encode [] = []
base64_url_encode (a ∷ []) = let v = a * 2 ^ 16 in sextet v 18 ∷ sextet v 12 ∷ []
base64_url_encode (a ∷ b ∷ []) =
    let v = a * 2 ^ 16 + b * 2 ^ 8 in sextet v 18 ∷ sextet v 12 ∷ sextet v 6 ∷ []
base64_url_encode (a ∷ b ∷ c ∷ rest) =
    let v = a * 2 ^ 16 + b * 2 ^ 8 + c in
    sextet v 18 ∷ sextet v 12 ∷ sextet v 6 ∷ sextet v 0 ∷ base64_url_encode rest

-- `while (end > 0 && encoded[end - 1] == '=') --end`: what is left of the text.
unfoldable pub strip_padding : Bytes → Bytes
strip_padding [] = []
strip_padding (c ∷ s) = keep c (strip_padding s)
  where
    keep : ℕ → Bytes → Bytes
    keep d [] = if d == b'=' then [] else d ∷ []
    keep d (e ∷ r) = d ∷ e ∷ r

-- The loop over the characters, at `buffer`, a `uint32_t`, and `bits`. Its result is what it has
-- still to push to `out`.
unfoldable pub decode_loop : ℕ → ℕ → Bytes → Result CryptoError Bytes
decode_loop buffer bits [] = ok []
decode_loop buffer bits (c ∷ s) =
    let v = b64_reverse c in
    let buffer' = buffer * 64 % 2 ^ 32 + v in
    let pushed = (do
      rest ← decode_loop buffer' (bits + 6 - 8) s
      ok (buffer' / 2 ^ (bits + 6 - 8) % 256 ∷ rest)) in
    let waiting = decode_loop buffer' (bits + 6) s in
    if v == 0xff then err invalid_character else if leb 8 (bits + 6) then pushed else waiting

unfoldable pub base64_url_decode : Bytes → Result CryptoError Bytes
unfolding strip_padding decode_loop
base64_url_decode encoded = decode_loop 0 0 (strip_padding encoded)
