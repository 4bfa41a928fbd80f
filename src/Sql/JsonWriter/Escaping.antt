-- ===== src/Sql/JsonWriter/Escaping.antt =====
-- The strings that `WriteEscapedString` writes, against a reader of JSON strings.
use duckdb_flock.Base.{
  ℕ, zero, suc, ◌+◌, ◌-◌, ◌*◌, ◌/◌, ◌%◌, ◌<◌, ◌≤◌, ◌≡◌, refl, sym, ap, ◌∙◌, Option, none, some,
  List, [], ◌∷◌, ◌++◌, Bytes, length, take, drop, All, ltb, leb, ◌==◌, if◌then◌else◌, arith,
  all_below, all_below_sound, append_assoc, append-nil, length-append, Bool-cases, inl, inr,
}
use duckdb_flock.Crypto.Hex.{hex_char}
use duckdb_flock.Sql.Utf8.{encode_utf8, validate_utf8, IsScalar, is_continuation}
use duckdb_flock.Sql.JsonWriter.{escape_step, escape_loop, write_escaped_string}

-- Where a reader of a JSON string stands: in the text, after a backslash, or with hexadecimal
-- digits still to read and the value so far.
pub data Reader : Type 0 where
  in_text after_backslash : Reader
  in_hex : ℕ → ℕ → Reader

unfoldable pub hex_value : ℕ → ℕ
hex_value c = if leb b'a' c then (c - 87) else (c - 48)

unfoldable pub short_escape : ℕ → ℕ
short_escape c =
    if c == b'b'
    then 8
    else (if c == b'f'
        then 12
        else (if c == b'n' then 10 else (if c == b'r' then 13 else (if c == b't' then 9 else c))))

unfoldable pub push : ℕ → Option (Bytes × Bytes) → Option (Bytes × Bytes)
push c none = none
push c (some (s, rest)) = some (c ∷ s, rest)

-- The text up to the closing quote, and what follows that. Only `\u00XX` is read of the `\u` escapes.
unfoldable pub read_string : Reader → Bytes → Option (Bytes × Bytes)
unfolding push short_escape hex_value
read_string _ [] = none
read_string in_text (c ∷ r) =
    let next = push c (read_string in_text r) in
    let escaped = read_string after_backslash r in
    if c == b'"' then some ([], r) else (if c == 92 then escaped else next)
read_string after_backslash (c ∷ r) =
    let next = push (short_escape c) (read_string in_text r) in
    let digits = read_string (in_hex 3 0) r in if c == b'u' then digits else next
read_string (in_hex zero v) (c ∷ r) = push (v * 16 + hex_value c) (read_string in_text r)
read_string (in_hex (suc n) v) (c ∷ r) = read_string (in_hex n (v * 16 + hex_value c)) r

hex_value-hex_char : (i : ℕ) → i < 16 → hex_value (hex_char i) ≡ i
unfolding hex_value hex_char all_below
hex_value-hex_char i h =
    ground (arith, all_below_sound 16 (λ j. hex_value (hex_char j) == j) i refl h)

ascii-read :
    (b : ℕ) (rest out : Bytes)
    → b < 128
    → read_string in_text ((escape_step b rest).0 ++ out) ≡ push b (read_string in_text out)
unfolding escape_step read_string short_escape
ascii-read b rest out h = ground (
  arith,
  hex_value-hex_char (b / 16 % 16) (omega arith),
  hex_value-hex_char (b % 16) (omega arith),
)

ascii-consumed : (b : ℕ) (rest : Bytes) → b < 128 → (escape_step b rest).1 ≡ 1
unfolding escape_step
ascii-consumed b rest h = ground arith

validate_two_lem :
    (a b : ℕ) (rest : Bytes)
    → 2 ≤ a
    → a < 32
    → b < 64
    → validate_utf8 (192 + a) ((128 + b) ∷ rest) ≡ 2
unfolding validate_utf8 is_continuation
validate_two_lem a b rest h k l = ground arith

validate_three_lem :
    (a b c : ℕ) (rest : Bytes)
    → a < 16
    → b < 64
    → c < 64
    → (a ≡ 0 → 32 ≤ b)
    → (a ≡ 13 → b < 32)
    → validate_utf8 (224 + a) ((128 + b) ∷ (128 + c) ∷ rest) ≡ 3
unfolding validate_utf8 is_continuation
validate_three_lem a b c rest h k l m n = ground arith

validate_four_lem :
    (a b c d : ℕ) (rest : Bytes)
    → a < 5
    → b < 64
    → c < 64
    → d < 64
    → (a ≡ 0 → 16 ≤ b)
    → (a ≡ 4 → b < 16)
    → validate_utf8 (240 + a) ((128 + b) ∷ (128 + c) ∷ (128 + d) ∷ rest) ≡ 4
unfolding validate_utf8 is_continuation
validate_four_lem a b c d rest h k l m n o = ground arith

encode_two :
    (cp : ℕ) → 128 ≤ cp → cp < 2048 → encode_utf8 cp ≡ (192 + cp / 64) ∷ (128 + cp % 64) ∷ []
unfolding encode_utf8
encode_two cp h k = ground arith

encode_three :
    (cp : ℕ)
    → 2048 ≤ cp
    → cp < 65536
    → encode_utf8 cp ≡ (224 + cp / 4096) ∷ (128 + cp / 64 % 64) ∷ (128 + cp % 64) ∷ []
unfolding encode_utf8
encode_three cp h k = ground arith

encode_four :
    (cp : ℕ)
    → 65536 ≤ cp
    → encode_utf8 cp
      ≡ (240 + cp / 262144) ∷ (128 + cp / 4096 % 64) ∷ (128 + cp / 64 % 64) ∷ (128 + cp % 64) ∷ []
unfolding encode_utf8
encode_four cp h = ground arith

-- A valid sequence above the ASCII range is passed through.
high_step :
    (byte k fuel : ℕ) (rest : Bytes)
    → 128 ≤ byte
    → validate_utf8 byte rest ≡ suc k
    → escape_loop (suc fuel) (byte ∷ rest) ≡ (byte ∷ take k rest) ++ escape_loop fuel (drop k rest)
unfolding escape_loop escape_step
high_step byte k fuel rest h e = ground arith

two-written :
    (cp fuel : ℕ) (rest : Bytes)
    → 128 ≤ cp
    → cp < 2048
    → escape_loop (suc fuel) (encode_utf8 cp ++ rest) ≡ encode_utf8 cp ++ escape_loop fuel rest
two-written cp fuel rest h k =
    let v = validate_two_lem (cp / 64) (cp % 64) rest (omega arith) (omega arith) (omega arith) in
    rw (encode_two cp h k) (high_step _ 1 fuel _ (omega arith) v)

three-written :
    (cp fuel : ℕ) (rest : Bytes)
    → IsScalar cp
    → 2048 ≤ cp
    → cp < 65536
    → escape_loop (suc fuel) (encode_utf8 cp ++ rest) ≡ encode_utf8 cp ++ escape_loop fuel rest
three-written cp fuel rest s h k =
    let t = s.no_surrogate in
    let v =
      validate_three_lem (cp / 4096) (cp / 64 % 64) (cp % 64) rest (omega arith) (omega arith)
        (omega arith) (ground arith) (ground arith) in
    rw (encode_three cp h k) (high_step _ 2 fuel _ (omega arith) v)

four-written :
    (cp fuel : ℕ) (rest : Bytes)
    → IsScalar cp
    → 65536 ≤ cp
    → escape_loop (suc fuel) (encode_utf8 cp ++ rest) ≡ encode_utf8 cp ++ escape_loop fuel rest
four-written cp fuel rest s h =
    let t = s.in_range in
    let v =
      validate_four_lem (cp / 262144) (cp / 4096 % 64) (cp / 64 % 64) (cp % 64) rest (omega arith)
        (omega arith) (omega arith) (omega arith) (ground arith) (ground arith) in
    rw (encode_four cp h) (high_step _ 3 fuel _ (omega arith) v)

encode-high : (cp : ℕ) → 128 ≤ cp → All (λ c. 128 ≤ c) (encode_utf8 cp)
unfolding encode_utf8
encode-high cp h = ground arith

high-written :
    (cp fuel : ℕ) (rest : Bytes)
    → IsScalar cp
    → 128 ≤ cp
    → escape_loop (suc fuel) (encode_utf8 cp ++ rest) ≡ encode_utf8 cp ++ escape_loop fuel rest
high-written cp fuel rest s h = elim (Bool-cases (ltb cp 2048)) [
  | inl e ↦ two-written cp fuel rest h (ground arith)
  | inr e ↦ elim (Bool-cases (ltb cp 65536)) [
    | inl k ↦ three-written cp fuel rest s (ground arith) (ground arith)
    | inr k ↦ four-written cp fuel rest s (ground arith)
  ]
]

low-written :
    (cp fuel : ℕ) (rest : Bytes)
    → cp < 128
    → escape_loop (suc fuel) (cp ∷ rest) ≡ (escape_step cp rest).0 ++ escape_loop fuel rest
unfolding escape_loop
low-written cp fuel rest h = ground (arith, ascii-consumed cp rest h)

pub encode_ascii : (cp : ℕ) → cp < 128 → encode_utf8 cp ≡ cp ∷ []
unfolding encode_utf8
encode_ascii cp h = ground arith

abbrev pub encode_all : List ℕ → Bytes
encode_all [] = []
encode_all (cp ∷ cps) = encode_utf8 cp ++ encode_all cps

length-encode : (cp : ℕ) → 1 ≤ length (encode_utf8 cp)
unfolding encode_utf8
length-encode cp = ground arith

length-encode_all : (cps : List ℕ) → length cps ≤ length (encode_all cps)
length-encode_all [] = omega arith
length-encode_all (cp ∷ cps) = omega (
  arith,
  length-encode cp,
  length-encode_all cps,
  length-append (encode_utf8 cp) (encode_all cps),
)

-- Any reader that gives back an escaped ASCII character, and a byte above the ASCII range.
module _ {ℓ} {R : Type ℓ} (read : Bytes → R) (add : ℕ → R → R)
    (ascii : (b : ℕ) (rest out : Bytes)
      → b < 128
      → read ((escape_step b rest).0 ++ out) ≡ add b (read out))
    (high : (c : ℕ) (out : Bytes) → 128 ≤ c → read (c ∷ out) ≡ add c (read out)) where
  add_all : Bytes → R → R
  add_all [] o = o
  add_all (c ∷ cs) o = add c (add_all cs o)

  high-read : (bs out : Bytes) → All (λ c. 128 ≤ c) bs → read (bs ++ out) ≡ add_all bs (read out)
  unfolding add_all
  high-read [] out h = refl
  high-read (c ∷ bs) out h = high c (bs ++ out) h.0 ∙ ap (add c) (high-read bs out h.1)

  -- One code point is one turn of the loop, and the reader gives its bytes back.
  read-turn :
      (cp fuel : ℕ) (rest out : Bytes)
      → IsScalar cp
      → read (escape_loop (suc fuel) (encode_utf8 cp ++ rest) ++ out)
        ≡ add_all (encode_utf8 cp) (read (escape_loop fuel rest ++ out))
  unfolding add_all
  read-turn cp fuel rest out s = elim (Bool-cases (ltb cp 128)) [
    | inl e ↦
        let low : cp < 128 = ground arith in
        rw (encode_ascii cp low) (
          rw (low-written cp fuel rest low) (
            rw (append_assoc (escape_step cp rest).0 (escape_loop fuel rest) out)
              (ascii cp rest _ low)))
    | inr e ↦
        let above : 128 ≤ cp = ground arith in
        rw (high-written cp fuel rest s above) (
          rw (append_assoc (encode_utf8 cp) (escape_loop fuel rest) out)
            (high-read (encode_utf8 cp) _ (encode-high cp above)))
  ]

  add_all-append : (s t : Bytes) (o : R) → add_all (s ++ t) o ≡ add_all s (add_all t o)
  unfolding add_all
  add_all-append [] t o = refl
  add_all-append (c ∷ s) t o = ap (add c) (add_all-append s t o)

  read-loop :
      (cps : List ℕ) (fuel : ℕ) (out : Bytes)
      → All IsScalar cps
      → length cps ≤ fuel
      → read (escape_loop fuel (encode_all cps) ++ out) ≡ add_all (encode_all cps) (read out)
  unfolding escape_loop add_all
  read-loop [] zero out h k = refl
  read-loop [] (suc fuel) out h k = refl
  read-loop (cp ∷ cps) zero out h k = absurd (omega arith)
  read-loop (cp ∷ cps) (suc fuel) out h k =
      read-turn cp fuel (encode_all cps) out h.0
      ∙ ap (add_all (encode_utf8 cp)) (read-loop cps fuel out h.1 (omega arith))
      ∙ sym (add_all-append (encode_utf8 cp) (encode_all cps) _)

  -- The whole text behind the opening quote, for a reader that ends at a quote.
  module _ (done : Bytes → Bytes → R) (quote : (out : Bytes) → read (b'"' ∷ out) ≡ done [] out)
      (more : (c : ℕ) (s out : Bytes) → add c (done s out) ≡ done (c ∷ s) out) where
    add_all-done : (s t out : Bytes) → add_all s (done t out) ≡ done (s ++ t) out
    unfolding add_all
    add_all-done [] t out = refl
    add_all-done (c ∷ s) t out = ap (add c) (add_all-done s t out) ∙ more c (s ++ t) out

    -- A text of UTF-8 that `WriteEscapedString` writes is read back, up to the closing quote.
    pub write_escaped_string-through :
        (cps : List ℕ) (out : Bytes)
        → All IsScalar cps
        → (r : Bytes) × (write_escaped_string (encode_all cps) ≡ b'"' ∷ r)
          × (read (r ++ out) ≡ done (encode_all cps) out)
    unfolding write_escaped_string
    write_escaped_string-through cps out h =
        let s = encode_all cps in
        (
          escape_loop (length s) s ++ b'"' ∷ [],
          refl,
          rw (append_assoc (escape_loop (length s) s) (b'"' ∷ []) out) (
              read-loop cps (length s) (b'"' ∷ out) h (length-encode_all cps)
              ∙ ap (add_all s) (quote out)
              ∙ add_all-done s [] out
              ∙ ap (λ t. done t out) (append-nil s)),
        )

-- A text of UTF-8 that `WriteEscapedString` writes, whatever characters it has, is read back by a
-- reader of JSON strings, which stops behind the closing quote.
pub write_escaped_string-read :
    (cps : List ℕ) (out : Bytes)
    → All IsScalar cps
    → (r : Bytes) × (write_escaped_string (encode_all cps) ≡ b'"' ∷ r)
      × (read_string in_text (r ++ out) ≡ some (encode_all cps, out))
unfolding read_string push
write_escaped_string-read cps out h =
    write_escaped_string-through (read_string in_text) push ascii-read (λ c out k. ground arith)
      (λ s out. some (s, out)) (λ out. refl) (λ c s out. refl) cps out h
