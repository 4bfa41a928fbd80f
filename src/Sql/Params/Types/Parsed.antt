-- ===== src/Sql/Params/Types/Parsed.antt =====
-- The types that `ParseLogicalType` gives.
use duckdb_flock.Base.{
  ℕ, zero, suc, ◌<◌, ◌≡◌, refl, inl, inr, Bool, true, false, not, Option, none, some, List, [], ◌∷◌,
  Bytes, codes, is_empty, length, Result, ok, throw_if, or_throw, ltb, leb, ◌==◌, arith, Bool-cases,
}
use duckdb_flock.Duckdb.{StringUtil}
use duckdb_flock.Auth.Cookie.Decimal.{stoull}
use duckdb_flock.Sql.Params.Types.{
  LogicalType, list, struct, TypeError, no_fields, field_without_type, normalize,
  split_top_level_commas,
}
use duckdb_flock.Sql.Params.Types.Nested.{
  parse_bracketed_args, is_field_name, at_blank, pair_of, array_length, parse_field, parse_fields,
  parse_array, parse_map, parse_struct, parse_normalized, parse_logical_type,
  max_type_string_length,
}
use duckdb_flock.Sql.Params.Types.WellFormed.{
  IsSound, AreSound, Yields, Yields-bind, Yields-ok, any, either,
}
use duckdb_flock.Sql.Params.Types.Simple.{parse_simple_logical_type_sound}

array_length-positive : (o : Option ℕ) → Yields (λ n. 0 < n) (array_length o)
unfolding array_length
array_length-positive none = tt
array_length-positive (some n) = either (λ n. 0 < n) (n == 0) _ _ (λ _. tt) (λ e. ground arith)

named :
    (name : Bytes) (x : TypeError)
    → Yields (λ u. is_field_name name ≡ true) (throw_if (not (is_field_name name)) x)
named name x = elim (Bool-cases (is_field_name name)) [ inl e ↦ rw e refl | inr e ↦ rw e tt ]

module _ (u : StringUtil) (n : ℕ) (parse : Bytes → Result TypeError LogicalType)
    (sound : (s : Bytes) → Yields (IsSound n) (parse s)) where
  parse_field_sound :
      (text : Bytes)
      → Yields (λ p. (is_field_name p.0 ≡ true) × IsSound n p.1) (parse_field u parse text)
  unfolding parse_field
  parse_field_sound text =
      Yields-bind (λ p. Unit) _ (or_throw (at_blank text) field_without_type) _
        (any (or_throw (at_blank text) field_without_type))
        (λ p _.
          Yields-bind (λ x. is_field_name (u.trim p.0) ≡ true) _
            (throw_if (not (is_field_name (u.trim p.0))) _) _ (named (u.trim p.0) _)
            (λ _ valid.
              Yields-bind (IsSound n) _ (parse (u.trim p.1)) _ (sound (u.trim p.1))
                (λ t s. (valid, s))))

  parse_fields_sound : (texts : List Bytes) → Yields (AreSound n) (parse_fields u parse texts)
  unfolding parse_fields AreSound
  parse_fields_sound [] = tt
  parse_fields_sound (text ∷ texts) =
      Yields-bind (λ p. (is_field_name p.0 ≡ true) × IsSound n p.1) _ (parse_field u parse text) _
        (parse_field_sound text)
        (λ p h.
          Yields-bind (AreSound n) _ (parse_fields u parse texts) _ (parse_fields_sound texts)
            (λ fields k. (h.0, h.1, k)))

  parse_array_sound : (inner : Bytes) → Yields (IsSound (suc n)) (parse_array u parse inner)
  unfolding parse_array IsSound
  parse_array_sound inner =
      Yields-bind (λ p. Unit) _ (pair_of (split_top_level_commas u inner)) _
        (any (pair_of (split_top_level_commas u inner)))
        (λ p _. Yields-bind (IsSound n) _ (parse p.0) _ (sound p.0) (λ t s.
          Yields-bind (λ m. 0 < m) _ (array_length (stoull p.1)) _
            (array_length-positive (stoull p.1)) (λ m l. (l, s))))

  parse_map_sound : (inner : Bytes) → Yields (IsSound (suc n)) (parse_map u parse inner)
  unfolding parse_map IsSound
  parse_map_sound inner =
      Yields-bind (λ p. Unit) _ (pair_of (split_top_level_commas u inner)) _
        (any (pair_of (split_top_level_commas u inner)))
        (λ p _.
          Yields-bind (IsSound n) _ (parse p.0) _ (sound p.0)
            (λ t s. Yields-bind (IsSound n) _ (parse p.1) _ (sound p.1) (λ v k. (s, k))))

  some_fields :
      (texts : List Bytes)
      → leb (length texts) 0 ≡ false
      → Yields (λ fields. IsSound (suc n) (struct fields)) (parse_fields u parse texts)
  unfolding parse_fields IsSound
  some_fields [] h = absurd (ground arith)
  some_fields (text ∷ texts) h =
      Yields-bind (λ p. (is_field_name p.0 ≡ true) × IsSound n p.1) _ (parse_field u parse text) _
        (parse_field_sound text)
        (λ p h.
          Yields-bind (AreSound n) _ (parse_fields u parse texts) _ (parse_fields_sound texts)
            (λ fields k. (h.0, h.1, k)))

  counted : (b : Bool) (x : TypeError) → Yields (λ v. b ≡ false) (throw_if b x)
  counted true x = tt
  counted false x = refl

  parse_struct_sound : (inner : Bytes) → Yields (IsSound (suc n)) (parse_struct u parse inner)
  unfolding parse_struct
  parse_struct_sound inner =
      let texts = split_top_level_commas u inner in
      Yields-bind (λ v. leb (length texts) 0 ≡ false) _ (throw_if (leb (length texts) 0) no_fields)
        _ (counted (leb (length texts) 0) no_fields)
        (λ v h.
          Yields-bind (λ fields. IsSound (suc n) (struct fields)) _ (parse_fields u parse texts) _
            (some_fields texts h) (λ fields k. k))

list_sound : (n : ℕ) (t : LogicalType) → IsSound n t → IsSound (suc n) (list t)
unfolding IsSound
list_sound n t h = h

parse_normalized_sound :
    (u : StringUtil) (n : ℕ) (parse : Bytes → Result TypeError LogicalType) (s : Bytes)
    → ((s : Bytes) → Yields (IsSound n) (parse s))
    → Yields (IsSound (suc n)) (parse_normalized u parse s)
unfolding parse_normalized
parse_normalized_sound u n parse s sound =
    let P = IsSound (suc n) in
    either P (is_empty s) _ _ (λ _. tt)
      (λ _.
        either P (u.starts_with (u.upper s) (codes "LIST<")) _ _
          (λ _.
            Yields-bind (λ i. Unit) P (parse_bracketed_args 4 b'<' b'>' s) _
              (any (parse_bracketed_args 4 b'<' b'>' s))
              (λ i _. Yields-bind (IsSound n) P (parse i) _ (sound i) (λ t k. list_sound n t k)))
          (λ _.
            either P (u.starts_with (u.upper s) (codes "ARRAY<")) _ _
              (λ _.
                Yields-bind (λ i. Unit) P (parse_bracketed_args 5 b'<' b'>' s) _
                  (any (parse_bracketed_args 5 b'<' b'>' s))
                  (λ i _. parse_array_sound u n parse sound i))
              (λ _.
                either P (u.starts_with (u.upper s) (codes "MAP<")) _ _
                  (λ _.
                    Yields-bind (λ i. Unit) P (parse_bracketed_args 3 b'<' b'>' s) _
                      (any (parse_bracketed_args 3 b'<' b'>' s))
                      (λ i _. parse_map_sound u n parse sound i))
                  (λ _.
                    either P (u.starts_with (u.upper s) (codes "STRUCT(")) _ _
                      (λ _.
                        Yields-bind (λ i. Unit) P (parse_bracketed_args 6 b'(' b')' s) _
                          (any (parse_bracketed_args 6 b'(' b')' s))
                          (λ i _. parse_struct_sound u n parse sound i))
                      (λ _.
                        either P (u.starts_with (u.upper s) (codes "UNION(")) _ _ (λ _. tt)
                          (λ _. parse_simple_logical_type_sound u n s))))))

parse_logical_type_sound :
    (u : StringUtil) (fuel : ℕ) (input : Bytes)
    → Yields (IsSound fuel) (parse_logical_type u fuel input)
unfolding parse_logical_type
parse_logical_type_sound u zero input = tt
parse_logical_type_sound u (suc fuel) input =
    either (IsSound (suc fuel)) (ltb max_type_string_length (length input)) _ _ (λ _. tt)
      (λ _.
        parse_normalized_sound u fuel (λ s. parse_logical_type u fuel s) (normalize input)
          (λ s. parse_logical_type_sound u fuel s))

-- A type that is parsed is nested less deep than the fuel, which is 33 in the first call; its arrays
-- have a length that is not 0, its structs have a field, and the names of the fields are of letters,
-- digits and underscores, and start with no digit. The width and the scale of a decimal are bytes,
-- and nothing else is known of them: the code tests neither.
pub parse_logical_type-IsSound :
    (u : StringUtil) (fuel : ℕ) (input : Bytes) (t : LogicalType)
    → parse_logical_type u fuel input ≡ ok t
    → IsSound fuel t
parse_logical_type-IsSound u fuel input t parsed =
    Yields-ok (IsSound fuel) (parse_logical_type u fuel input) t parsed
      (parse_logical_type_sound u fuel input)
