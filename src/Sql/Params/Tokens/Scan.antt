-- ===== src/Sql/Params/Tokens/Scan.antt =====
-- `ParseRawValue` takes a value of the JSON writer whole.
use duckdb_flock.Base.{
  ℕ, zero, suc, ◌/◌, ◌%◌, ◌<◌, ◌≤◌, ◌≡◌, ◌≢◌, refl, sym, ap, ◌∙◌, not, ◌&&◌, Option, some, [], ◌∷◌,
  ◌++◌, Bytes, drop, All, ltb, ◌==◌, arith, all_below, all_below_sound, append_assoc, Bool-cases,
  inl, inr,
}
use duckdb_flock.Sql.JsonWriter.{escape_step, escape_loop, replacement}
use duckdb_flock.Sql.JsonWriter.Printable.{IsHigh, sequence-IsHigh}
use duckdb_flock.Crypto.Hex.{hex_char}
use duckdb_flock.Sql.Params.Tokens.{cons_raw}

unfoldable pub cons_all : Bytes → Option (Bytes × Bytes) → Option (Bytes × Bytes)
cons_all [] o = o
cons_all (c ∷ s) o = cons_raw c (cons_all s o)

pub cons_all-append :
    (s t : Bytes) (o : Option (Bytes × Bytes)) → cons_all (s ++ t) o ≡ cons_all s (cons_all t o)
unfolding cons_all
cons_all-append [] t o = refl
cons_all-append (c ∷ s) t o = ap (cons_raw c) (cons_all-append s t o)

pub cons_all-some : (s t rest : Bytes) → cons_all s (some (t, rest)) ≡ some (s ++ t, rest)
unfolding cons_all
cons_all-some [] t rest = refl
cons_all-some (c ∷ s) t rest = ap (cons_raw c) (cons_all-some s t rest)

hex_char-plain : (i : ℕ) → i < 16 → (hex_char i ≢ b'"') × (hex_char i ≢ 92)
unfolding hex_char all_below
hex_char-plain i h =
    let p = all_below_sound 16 (λ j. not (hex_char j == b'"') && not (hex_char j == 92)) i refl h in
    (λ e. ground arith, λ e. ground arith)

piece-IsHigh : (b : ℕ) (rest : Bytes) → 128 ≤ b → All IsHigh (escape_step b rest).0
unfolding escape_step replacement
piece-IsHigh b rest h = ground (arith, sequence-IsHigh b rest h)

-- A scan that passes every character but a quote and a backslash, and a backslash with what follows it.
module _ (read : Bytes → Option (Bytes × Bytes))
    (plain : (c : ℕ) (out : Bytes) → c ≢ b'"' → c ≢ 92 → read (c ∷ out) ≡ cons_raw c (read out))
    (pair : (c : ℕ) (out : Bytes) → read (92 ∷ c ∷ out) ≡ cons_raw 92 (cons_raw c (read out))) where
  high-scan : (s out : Bytes) → All IsHigh s → read (s ++ out) ≡ cons_all s (read out)
  unfolding cons_all
  high-scan [] out h = refl
  high-scan (c ∷ s) out h =
      let k = h.0 in
      plain c (s ++ out) (λ e. omega arith) (λ e. omega arith)
      ∙ ap (cons_raw c) (high-scan s out h.1)

  unicode-scan :
      (h l : ℕ) (out : Bytes)
      → h < 16
      → l < 16
      → read (92 ∷ b'u' ∷ b'0' ∷ b'0' ∷ hex_char h ∷ hex_char l ∷ out)
        ≡ cons_all (92 ∷ b'u' ∷ b'0' ∷ b'0' ∷ hex_char h ∷ hex_char l ∷ []) (read out)
  unfolding cons_all
  unicode-scan h l out p q =
      pair b'u' _
      ∙ ap (λ o. cons_raw 92 (cons_raw b'u' o))
          (plain b'0' _ (λ e. omega arith) (λ e. omega arith)
            ∙ ap (cons_raw b'0') (
                plain b'0' _ (λ e. omega arith) (λ e. omega arith)
                ∙ ap (cons_raw b'0') (
                    plain (hex_char h) _ (hex_char-plain h p).0 (hex_char-plain h p).1
                    ∙ ap (cons_raw (hex_char h))
                        (plain (hex_char l) _ (hex_char-plain l q).0 (hex_char-plain l q).1))))

  step-scan :
      (b : ℕ) (rest out : Bytes)
      → read ((escape_step b rest).0 ++ out) ≡ cons_all (escape_step b rest).0 (read out)
  unfolding escape_step cons_all replacement
  step-scan b rest out = elim (Bool-cases (ltb b 128)) [
    | inl e ↦ ground (
      arith,
      plain b out,
      pair b'"' out,
      pair 92 out,
      pair b'b' out,
      pair b'f' out,
      pair b'n' out,
      pair b'r' out,
      pair b't' out,
      unicode-scan (b / 16 % 16) (b % 16) out (omega arith) (omega arith),
    )
    | inr e ↦ high-scan (escape_step b rest).0 out (piece-IsHigh b rest (ground arith))
  ]

  pub loop-scan :
      (fuel : ℕ) (s out : Bytes)
      → read (escape_loop fuel s ++ out) ≡ cons_all (escape_loop fuel s) (read out)
  unfolding escape_loop cons_all
  loop-scan zero s out = refl
  loop-scan (suc fuel) [] out = refl
  loop-scan (suc fuel) (b ∷ rest) out =
      let more = escape_loop fuel (drop (escape_step b rest).1 (b ∷ rest)) in
      ap read (append_assoc (escape_step b rest).0 more out)
      ∙ step-scan b rest (more ++ out)
      ∙ ap (cons_all (escape_step b rest).0) (loop-scan fuel _ out)
      ∙ sym (cons_all-append (escape_step b rest).0 more (read out))
