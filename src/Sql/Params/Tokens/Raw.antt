-- ===== src/Sql/Params/Tokens/Raw.antt =====
-- `ParseRawValue`: it cuts the text in two, and takes a value of the JSON writer whole.
use duckdb_flock.Base.{
  ℕ, suc, ◌-◌, ◌≡◌, ◌≢◌, refl, ap, ◌∙◌, Bool, true, false, Option, none, some, [], ◌∷◌, ◌++◌, Bytes,
  ok, or_throw, ◌==◌, arith, Bool-cases, inl, inr,
}
use duckdb_flock.Sql.Params.Tokens.{
  ParamError, unterminated_string, unterminated_nested, skip_whitespace, cons_raw, raw_string,
  raw_nested, raw_literal, literal_value, raw_here, parse_raw_value,
}

-- `s` is what was taken and what was left.
abbrev Splits : Bytes → Option (Bytes × Bytes) → Type 0
Splits s o = (raw rest : Bytes) → o ≡ some (raw, rest) → s ≡ raw ++ rest

Splits-cons_raw :
    (c : ℕ) (s : Bytes) (o : Option (Bytes × Bytes)) → Splits s o → Splits (c ∷ s) (cons_raw c o)
Splits-cons_raw c s none h raw rest e = cc
Splits-cons_raw c s (some (raw', rest')) h raw rest e = let k = h raw' rest' refl in ground arith

raw_string-Splits : (s : Bytes) → Splits s (raw_string s)
unfolding raw_string
raw_string-Splits [] = λ raw rest e. cc
raw_string-Splits (c ∷ []) = λ raw rest e. ground arith
raw_string-Splits (c ∷ d ∷ s) = λ raw rest e.
    let h = Splits-cons_raw c (d ∷ s) _ (Splits-cons_raw d s _ (raw_string-Splits s)) raw rest in
    let k = Splits-cons_raw c (d ∷ s) _ (raw_string-Splits (d ∷ s)) raw rest in ground arith

raw_nested-Splits :
    (start close depth : ℕ) (q : Bool) (s : Bytes) → Splits s (raw_nested start close depth q s)
unfolding raw_nested
raw_nested-Splits a z depth q [] = λ raw rest e. cc
raw_nested-Splits a z depth true (c ∷ []) = λ raw rest e. cc
raw_nested-Splits a z depth true (c ∷ d ∷ s) = λ raw rest e.
    let h =
      Splits-cons_raw c (d ∷ s) _ (Splits-cons_raw d s _ (raw_nested-Splits a z depth true s)) raw
        rest in
    let k = Splits-cons_raw c (d ∷ s) _ (raw_nested-Splits a z depth false (d ∷ s)) raw rest in
    let l = Splits-cons_raw c (d ∷ s) _ (raw_nested-Splits a z depth true (d ∷ s)) raw rest in
    ground arith
raw_nested-Splits a z depth false (c ∷ s) = λ raw rest e.
    let h = Splits-cons_raw c s _ (raw_nested-Splits a z depth true s) raw rest in
    let k = Splits-cons_raw c s _ (raw_nested-Splits a z (suc depth) false s) raw rest in
    let l = Splits-cons_raw c s _ (raw_nested-Splits a z (depth - 1) false s) raw rest in
    let m = Splits-cons_raw c s _ (raw_nested-Splits a z depth false s) raw rest in ground arith

raw_literal-Splits : (s : Bytes) → s ≡ (raw_literal s).0 ++ (raw_literal s).1
unfolding raw_literal
raw_literal-Splits [] = refl
raw_literal-Splits (c ∷ s) = let h = raw_literal-Splits s in ground arith

nonempty :
    (c : ℕ) (o : Option (Bytes × Bytes)) (raw rest : Bytes)
    → cons_raw c o ≡ some (raw, rest)
    → raw ≢ []
nonempty c none raw rest e = cc
nonempty c (some _) raw rest e = λ k. ground arith

first_raw :
    (a z c : ℕ) (s raw rest : Bytes)
    → (c == b'"') ≡ false
    → (c == a) ≡ true
    → raw_nested a z 0 false (c ∷ s) ≡ some (raw, rest)
    → raw ≢ []
unfolding raw_nested
first_raw a z c s raw rest h k e = nonempty c (raw_nested a z 1 false s) raw rest (ground arith)

literal_raw :
    (p : Bytes × Bytes) (raw rest : Bytes)
    → literal_value p ≡ ok (raw, rest)
    → (raw ≢ []) × (p ≡ (raw, rest))
unfolding literal_value
literal_raw ([], r) raw rest e = cc
literal_raw (c ∷ s, r) raw rest e = (λ k. ground arith, ground arith)

or_throw-ok :
    (o : Option (Bytes × Bytes)) (e : ParamError) (p : Bytes × Bytes)
    → or_throw o e ≡ ok p
    → o ≡ some p
or_throw-ok none e p h = cc
or_throw-ok (some q) e p h = ground arith

raw_here-splits :
    (s raw rest : Bytes) → raw_here s ≡ ok (raw, rest) → (s ≡ raw ++ rest) × (raw ≢ [])
unfolding raw_here
raw_here-splits [] raw rest e = cc
raw_here-splits (c ∷ s) raw rest e = elim (Bool-cases (c == b'"')) [
  | inl q ↦
      let h : cons_raw c (raw_string s) ≡ some (raw, rest) =
        or_throw-ok _ unterminated_string _ (ground arith) in
      (Splits-cons_raw c s _ (raw_string-Splits s) raw rest h, nonempty c _ raw rest h)
  | inr q ↦ elim (Bool-cases (c == b'{')) [
    | inl b ↦
        let h : raw_nested b'{' b'}' 0 false (c ∷ s) ≡ some (raw, rest) =
          or_throw-ok _ unterminated_nested _ (ground arith) in
        (
          raw_nested-Splits b'{' b'}' 0 false (c ∷ s) raw rest h,
          first_raw b'{' b'}' c s raw rest q b h,
        )
    | inr b ↦ elim (Bool-cases (c == b'[')) [
      | inl k ↦
          let h : raw_nested b'[' b']' 0 false (c ∷ s) ≡ some (raw, rest) =
            or_throw-ok _ unterminated_nested _ (ground arith) in
          (
            raw_nested-Splits b'[' b']' 0 false (c ∷ s) raw rest h,
            first_raw b'[' b']' c s raw rest q k h,
          )
      | inr k ↦
          let (filled, whole) = literal_raw (raw_literal (c ∷ s)) raw rest (ground arith) in
          let cut = raw_literal-Splits (c ∷ s) in (cut ∙ ap (λ p. p.0 ++ p.1) whole, filled)
    ]
  ]
]

-- `ParseRawValue` takes at least one character, and cuts the text behind the white space in two:
-- the value it returns and what is left to parse.
pub parse_raw_value-splits :
    (json raw rest : Bytes)
    → parse_raw_value json ≡ ok (raw, rest)
    → (skip_whitespace json ≡ raw ++ rest) × (raw ≢ [])
unfolding parse_raw_value
parse_raw_value-splits json raw rest e = raw_here-splits (skip_whitespace json) raw rest e
