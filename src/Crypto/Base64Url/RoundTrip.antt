-- ===== src/Crypto/Base64Url/RoundTrip.antt =====
-- What is decoded after it was encoded.
use duckdb_flock.Base.{
  ℕ, ◌+◌, ◌-◌, ◌*◌, ◌/◌, ◌%◌, ◌^◌, ◌<◌, ◌≤◌, ◌≡◌, ◌≢◌, refl, ◌∙◌, ◌∙◌, [], ◌∷◌, Bytes, AreBytes,
  All, ok, ◌>>=◌, arith,
}
use duckdb_flock.Crypto.Base64Url.{
  b64_char, sextet, base64_url_encode, strip_padding, decode_loop, base64_url_decode,
}
use duckdb_flock.Crypto.Base64Url.Alphabet.{b64_reverse-b64_char, b64_char-plain}

step_wait :
    (buffer bits i : ℕ) (s : Bytes)
    → i < 64
    → bits < 2
    → decode_loop buffer bits (b64_char i ∷ s) ≡ decode_loop (buffer * 64 % 2 ^ 32 + i) (bits + 6) s
unfolding decode_loop
step_wait buffer bits i s h k = rw (b64_reverse-b64_char i h) (ground arith)

step_push :
    (buffer bits i : ℕ) (s : Bytes)
    → i < 64
    → 2 ≤ bits
    → decode_loop buffer bits (b64_char i ∷ s) ≡ (
        decode_loop (buffer * 64 % 2 ^ 32 + i) (bits - 2) s >>= λ rest.
        ok (((buffer * 64 % 2 ^ 32 + i) / 2 ^ (bits - 2) % 256) ∷ rest))
unfolding decode_loop
step_push buffer bits i s h k =
    rw (b64_reverse-b64_char i h)
      (let shorter : bits + 6 - 8 ≡ bits - 2 = omega arith in rw shorter (ground arith))

-- The value in the `uint32_t` buffer after one more character.
abbrev shifted : ℕ → ℕ → ℕ
shifted buffer i = buffer * 64 % 2 ^ 32 + i

first_byte :
    (buffer a r : ℕ)
    → a < 256
    → r < 2 ^ 16
    → shifted (shifted buffer ((a * 2 ^ 16 + r) / 2 ^ 18 % 64)) ((a * 2 ^ 16 + r) / 2 ^ 12 % 64)
        / 2 ^ 4
        % 256
      ≡ a
first_byte buffer a r h k = omega arith

second_byte :
    (buffer a b c : ℕ)
    → b < 256
    → c < 256
    → shifted
          (shifted buffer ((a * 2 ^ 16 + b * 2 ^ 8 + c) / 2 ^ 12 % 64))
          ((a * 2 ^ 16 + b * 2 ^ 8 + c) / 2 ^ 6 % 64)
        / 2 ^ 2
        % 256
      ≡ b
second_byte buffer a b c k l = omega arith

third_byte :
    (buffer a b c : ℕ)
    → c < 256
    → shifted
          (shifted buffer ((a * 2 ^ 16 + b * 2 ^ 8 + c) / 2 ^ 6 % 64))
          ((a * 2 ^ 16 + b * 2 ^ 8 + c) / 2 ^ 0 % 64)
        / 2 ^ 0
        % 256
      ≡ c
third_byte buffer a b c h = omega arith

module _ (buffer i j k l : ℕ) (hi : i < 64) (hj : j < 64) (hk : k < 64) (hl : l < 64) where
  abbrev buffer₂ : ℕ
  buffer₂ = shifted (shifted buffer i) j

  abbrev buffer₃ : ℕ
  buffer₃ = shifted buffer₂ k

  abbrev buffer₄ : ℕ
  buffer₄ = shifted buffer₃ l

  two_chars : decode_loop buffer 0 (b64_char i ∷ b64_char j ∷ []) ≡ ok (buffer₂ / 2 ^ 4 % 256 ∷ [])
  two_chars =
      rw (step_wait buffer 0 i _ hi (omega arith), step_push _ 6 j _ hj (omega arith))
        (unfold decode_loop in refl)

  three_chars :
      decode_loop buffer 0 (b64_char i ∷ b64_char j ∷ b64_char k ∷ [])
      ≡ ok (buffer₂ / 2 ^ 4 % 256 ∷ buffer₃ / 2 ^ 2 % 256 ∷ [])
  three_chars =
      rw
        (
          step_wait buffer 0 i _ hi (omega arith),
          step_push _ 6 j _ hj (omega arith),
          step_push _ 4 k _ hk (omega arith),
        )
        (unfold decode_loop in refl)

  four_chars :
      (rest out : Bytes)
      → decode_loop buffer₄ 0 rest ≡ ok out
      → decode_loop buffer 0 (b64_char i ∷ b64_char j ∷ b64_char k ∷ b64_char l ∷ rest)
        ≡ ok (buffer₂ / 2 ^ 4 % 256 ∷ buffer₃ / 2 ^ 2 % 256 ∷ buffer₄ / 2 ^ 0 % 256 ∷ out)
  four_chars rest out h = rw (
    step_wait buffer 0 i _ hi (omega arith),
    step_push _ 6 j _ hj (omega arith),
    step_push _ 4 k _ hk (omega arith),
    step_push _ 2 l _ hl (omega arith),
    h,
  )

decode_loop-encode :
    (bytes : Bytes) (buffer : ℕ)
    → AreBytes bytes
    → decode_loop buffer 0 (base64_url_encode bytes) ≡ ok bytes
unfolding base64_url_encode
decode_loop-encode [] buffer h = unfold decode_loop in refl
decode_loop-encode (a ∷ []) buffer h =
    let first : shifted (shifted buffer (a * 2 ^ 16 / 2 ^ 18 % 64)) (a * 2 ^ 16 / 2 ^ 12 % 64)
          / 2 ^ 4
          % 256
        ≡ a =
      omega arith in
    two_chars buffer _ _ 0 0 (omega arith) (omega arith) (omega arith) (omega arith) ∙ λ i.
    ok (first i ∷ [])
decode_loop-encode (a ∷ b ∷ []) buffer h =
    let v : ℕ = a * 2 ^ 16 + b * 2 ^ 8 in
    let first : shifted (shifted buffer (v / 2 ^ 18 % 64)) (v / 2 ^ 12 % 64) / 2 ^ 4 % 256 ≡ a =
      omega arith in
    let second : shifted (shifted (shifted buffer (v / 2 ^ 18 % 64)) (v / 2 ^ 12 % 64))
            (v / 2 ^ 6 % 64)
          / 2 ^ 2
          % 256
        ≡ b =
      omega arith in
    three_chars buffer _ _ _ 0 (omega arith) (omega arith) (omega arith) (omega arith) ∙ λ i.
    ok (first i ∷ second i ∷ [])
decode_loop-encode (a ∷ b ∷ c ∷ rest) buffer (ha, (hb, (hc, hr))) =
    let v : ℕ = a * 2 ^ 16 + b * 2 ^ 8 + c in
    let buffer₁ : ℕ = shifted buffer (v / 2 ^ 18 % 64) in
    let first : shifted buffer₁ (v / 2 ^ 12 % 64) / 2 ^ 4 % 256 ≡ a = omega arith in
    let second = second_byte buffer₁ a b c hb hc in
    let third = third_byte (shifted buffer₁ (v / 2 ^ 12 % 64)) a b c hc in
    four_chars buffer _ _ _ _ (omega arith) (omega arith) (omega arith) (omega arith) _ rest
      (decode_loop-encode rest _ hr)
    ∙ λ i. ok (first i ∷ second i ∷ third i ∷ rest)

-- A character that is ASCII, no dot and no padding.
abbrev pub IsPlain : ℕ → Type 0
IsPlain c = (c < 128) × (c ≢ b'.') × (c ≢ b'=')

sextet-IsPlain : (v k : ℕ) → IsPlain (sextet v k)
sextet-IsPlain v k = b64_char-plain (v / 2 ^ k % 64) (omega arith)

pub base64_url_encode-IsPlain : (bytes : Bytes) → All IsPlain (base64_url_encode bytes)
unfolding base64_url_encode
base64_url_encode-IsPlain [] = tt
base64_url_encode-IsPlain (a ∷ []) = (sextet-IsPlain _ 18, (sextet-IsPlain _ 12, tt))
base64_url_encode-IsPlain (a ∷ b ∷ []) =
    (sextet-IsPlain _ 18, (sextet-IsPlain _ 12, (sextet-IsPlain _ 6, tt)))
base64_url_encode-IsPlain (a ∷ b ∷ c ∷ rest) = (
  sextet-IsPlain _ 18,
  (sextet-IsPlain _ 12, (sextet-IsPlain _ 6, (sextet-IsPlain _ 0, base64_url_encode-IsPlain rest))),
)

strip_padding-plain : (s : Bytes) → All IsPlain s → strip_padding s ≡ s
unfolding strip_padding
strip_padding-plain [] h = refl
strip_padding-plain (c ∷ []) h = ground (arith, h.0.2)
strip_padding-plain (c ∷ d ∷ s) h = rw (strip_padding-plain (d ∷ s) h.1)

-- Decoding an encoded byte string gives the byte string back.
pub base64_url_decode-encode :
    (bytes : Bytes) → AreBytes bytes → base64_url_decode (base64_url_encode bytes) ≡ ok bytes
unfolding base64_url_decode
base64_url_decode-encode bytes h =
    rw (strip_padding-plain _ (base64_url_encode-IsPlain bytes)) (decode_loop-encode bytes 0 h)
