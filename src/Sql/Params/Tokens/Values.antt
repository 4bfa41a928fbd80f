-- ===== src/Sql/Params/Tokens/Values.antt =====
-- `ParseRawValue` on the text of a value.
use duckdb_flock.Base.{
  ℕ, suc, ◌≤◌, ◌≡◌, ◌≢◌, ◌⊎◌, refl, sym, ap, ◌∙◌, Bool, true, false, not, ◌&&◌, Option, [], ◌∷◌,
  ◌++◌, Bytes, codes, length, all, All, ◌==◌, if◌then◌else◌, arith, append_assoc, inl, inr,
}
use duckdb_flock.Sql.JsonWriter.{escape_loop, write_escaped_string}
use duckdb_flock.Sql.JsonWriter.Tree.{
  Json, Elements, Members, null, bool, string, number, array_of, object_of, no_element, element,
  no_member, member, text, elements_text, members_text, separator,
}
use duckdb_flock.Sql.Params.Tokens.{is_json_space, cons_raw, raw_nested, ends_literal}
use duckdb_flock.Sql.Params.Tokens.Scan.{cons_all, cons_all-append, loop-scan}

-- A character of a number's text.
abbrev pub IsNumeric : ℕ → Type 0
IsNumeric c = (ends_literal c ≡ false) × (c ≢ b'"') × (c ≢ b'[') × (c ≢ b'{')

-- The numbers of a value are not empty, and hold no character that JSON uses otherwise.
unfoldable mutual
  pub HasNumbers : Json → Type 0
  HasNumbers (number t) = (t ≢ []) × All IsNumeric t
  HasNumbers (array_of vs) = ElementsHaveNumbers vs
  HasNumbers (object_of ms) = MembersHaveNumbers ms
  HasNumbers _ = Unit

  pub ElementsHaveNumbers : Elements → Type 0
  ElementsHaveNumbers no_element = Unit
  ElementsHaveNumbers (element v vs) = HasNumbers v × ElementsHaveNumbers vs

  pub MembersHaveNumbers : Members → Type 0
  MembersHaveNumbers no_member = Unit
  MembersHaveNumbers (member name v ms) = HasNumbers v × MembersHaveNumbers ms

-- One of the two kinds of brackets.
abbrev pub IsBrackets : ℕ → ℕ → Type 0
IsBrackets a z = ((a ≡ b'[') × (z ≡ b']')) ⊎ ((a ≡ b'{') × (z ≡ b'}'))

inside : ℕ → ℕ → ℕ → ℕ
inside a c d = if c == a then suc d else d

unfoldable pub is_numeric : ℕ → Bool
is_numeric c = not (ends_literal c) && not (c == b'"') && not (c == b'[') && not (c == b'{')

is_numeric_sound : (c : ℕ) → is_numeric c ≡ true → IsNumeric c
unfolding is_numeric
is_numeric_sound c h = (ground arith, λ e. ground arith, λ e. ground arith, λ e. ground arith)

pub all-IsNumeric : (s : Bytes) → all is_numeric s ≡ true → All IsNumeric s
all-IsNumeric [] h = tt
all-IsNumeric (c ∷ s) h = (is_numeric_sound c (ground arith), all-IsNumeric s (ground arith))

module _ (a z : ℕ) (kind : IsBrackets a z) where
  abbrev pub outside : ℕ → Bytes → Option (Bytes × Bytes)
  outside d = raw_nested a z d false

  plain-true :
      (d c : ℕ) (out : Bytes)
      → c ≢ b'"'
      → c ≢ 92
      → raw_nested a z d true (c ∷ out) ≡ cons_raw c (raw_nested a z d true out)
  unfolding raw_nested
  plain-true d c [] h k = refl
  plain-true d c (e ∷ out) h k = ground arith

  pair-true :
      (d c : ℕ) (out : Bytes)
      → raw_nested a z d true (92 ∷ c ∷ out) ≡ cons_raw 92 (cons_raw c (raw_nested a z d true out))
  unfolding raw_nested
  pair-true d c out = refl

  quote-true :
      (d : ℕ) (out : Bytes) → raw_nested a z d true (b'"' ∷ out) ≡ cons_raw b'"' (outside d out)
  unfolding raw_nested
  quote-true d [] = refl
  quote-true d (e ∷ out) = refl

  string-scan :
      (d : ℕ) (s out : Bytes)
      → outside d (write_escaped_string s ++ out)
        ≡ cons_all (write_escaped_string s) (outside d out)
  unfolding write_escaped_string raw_nested cons_all
  string-scan d s out =
      let body = escape_loop (length s) s in
      ap (cons_raw b'"') (
        ap (raw_nested a z d true) (append_assoc body (b'"' ∷ []) out)
        ∙ loop-scan (raw_nested a z d true) (plain-true d) (λ c rest. pair-true d c rest) (length s)
            s (b'"' ∷ out)
        ∙ ap (cons_all body) (quote-true d out)
        ∙ sym (cons_all-append body (b'"' ∷ []) (outside d out)))

  plain-false :
      (d c : ℕ) (out : Bytes)
      → c ≢ b'"'
      → c ≢ b'['
      → c ≢ b']'
      → c ≢ b'{'
      → c ≢ b'}'
      → outside d (c ∷ out) ≡ cons_raw c (outside d out)
  unfolding raw_nested
  plain-false d c out h k l m n = ground arith

  numeric-scan :
      (d : ℕ) (s out : Bytes) → All IsNumeric s → outside d (s ++ out) ≡ cons_all s (outside d out)
  unfolding cons_all ends_literal
  numeric-scan d [] out h = refl
  numeric-scan d (c ∷ s) out h =
      let (e, p, q, r) = h.0 in
      plain-false d c (s ++ out) p q (λ i. ground arith) r (λ i. ground arith)
      ∙ ap (cons_raw c) (numeric-scan d s out h.1)

  open-scan :
      (d c : ℕ) (out : Bytes)
      → (c ≡ b'[') ⊎ (c ≡ b'{')
      → outside d (c ∷ out) ≡ cons_raw c (outside (inside a c d) out)
  unfolding raw_nested inside
  open-scan d c out h = ground arith

  close-scan :
      (d c e : ℕ) (out : Bytes)
      → 1 ≤ d
      → IsBrackets c e
      → outside (inside a c d) (e ∷ out) ≡ cons_raw e (outside d out)
  unfolding raw_nested inside
  close-scan d c e out h k = ground arith

  -- The scan passes over the text outside strings, at this depth.
  abbrev pub Passes : ℕ → Bytes → Type 0
  Passes d s = (out : Bytes) → outside d (s ++ out) ≡ cons_all s (outside d out)

  Passes-append : (d : ℕ) (s t : Bytes) → Passes d s → Passes d t → Passes d (s ++ t)
  Passes-append d s t h k out =
      ap (outside d) (append_assoc s t out)
      ∙ h (t ++ out)
      ∙ ap (cons_all s) (k out)
      ∙ sym (cons_all-append s t (outside d out))

  separator-Passes : (d : ℕ) (first : Bool) → Passes d (separator first)
  unfolding cons_all
  separator-Passes d true out = refl
  separator-Passes d false out =
      plain-false d b',' out (λ i. omega arith) (λ i. omega arith) (λ i. omega arith)
        (λ i. omega arith) (λ i. omega arith)

  colon-Passes : (d : ℕ) → Passes d (b':' ∷ [])
  unfolding cons_all
  colon-Passes d out =
      plain-false d b':' out (λ i. omega arith) (λ i. omega arith) (λ i. omega arith)
        (λ i. omega arith) (λ i. omega arith)

  enclosed-Passes :
      (d c e : ℕ) (s : Bytes)
      → 1 ≤ d
      → IsBrackets c e
      → Passes (inside a c d) s
      → Passes d (c ∷ (s ++ (e ∷ [])))
  unfolding cons_all
  enclosed-Passes d c e s h k p out =
      open-scan d c _ (ground arith)
      ∙ ap (cons_raw c) (
          ap (outside (inside a c d)) (append_assoc s (e ∷ []) out)
          ∙ p (e ∷ out)
          ∙ ap (cons_all s) (close-scan d c e out h k)
          ∙ sym (cons_all-append s (e ∷ []) (outside d out)))

  inside_pos : (c d : ℕ) → 1 ≤ d → 1 ≤ inside a c d
  unfolding inside
  inside_pos c d h = ground arith

  nothing-Passes : (d : ℕ) → Passes d []
  unfolding cons_all
  nothing-Passes d out = refl

  mutual
    unfolding text elements_text members_text is_numeric ends_literal is_json_space HasNumbers

    text-Passes : (v : Json) → HasNumbers v → (d : ℕ) → 1 ≤ d → Passes d (text v)
    text-Passes null h d k =
        λ out. numeric-scan d (codes "null") out (all-IsNumeric (codes "null") refl)
    text-Passes (bool true) h d k =
        λ out. numeric-scan d (codes "true") out (all-IsNumeric (codes "true") refl)
    text-Passes (bool false) h d k =
        λ out. numeric-scan d (codes "false") out (all-IsNumeric (codes "false") refl)
    text-Passes (string s) h d k = string-scan d s
    text-Passes (number t) h d k = λ out. numeric-scan d t out h.1
    text-Passes (array_of vs) h d k =
        enclosed-Passes d b'[' b']' (elements_text true vs) k (inl (refl, refl))
          (elements-Passes true vs h (inside a b'[' d) (inside_pos b'[' d k))
    text-Passes (object_of ms) h d k =
        enclosed-Passes d b'{' b'}' (members_text true ms) k (inr (refl, refl))
          (members-Passes true ms h (inside a b'{' d) (inside_pos b'{' d k))

    pub elements-Passes :
        (first : Bool) (vs : Elements)
        → ElementsHaveNumbers vs
        → (d : ℕ) → 1 ≤ d
        → Passes d (elements_text first vs)
    elements-Passes first no_element h d k = λ out. nothing-Passes d out
    elements-Passes first (element v vs) h d k =
        Passes-append d (separator first) _ (separator-Passes d first)
          (Passes-append d (text v) _ (text-Passes v h.0 d k) (elements-Passes false vs h.1 d k))

    pub members-Passes :
        (first : Bool) (ms : Members)
        → MembersHaveNumbers ms
        → (d : ℕ) → 1 ≤ d
        → Passes d (members_text first ms)
    members-Passes first no_member h d k = λ out. nothing-Passes d out
    members-Passes first (member name v ms) h d k =
        Passes-append d (separator first) _ (separator-Passes d first) (
          Passes-append d (write_escaped_string name) _ (string-scan d name) (
            Passes-append d (b':' ∷ []) _ (colon-Passes d) (
              Passes-append d (text v) _ (text-Passes v h.0 d k)
                (members-Passes false ms h.1 d k))))
