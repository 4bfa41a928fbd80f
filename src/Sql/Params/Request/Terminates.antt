-- ===== src/Sql/Params/Request/Terminates.antt =====
-- `ParseRequest` always comes to an end: each round of its loop takes a part of the body.
use duckdb_flock.Base.{
  ℕ, zero, suc, ◌+◌, ◌*◌, ◌≤◌, ◌<◌, ◌≡◌, ◌≢◌, refl, ap, Bool, true, false, Option, none, some, [],
  ◌∷◌, ◌++◌, Bytes, length, length-append, Result, ok, err, ◌>>=◌, Result-cases, ltb, ◌==◌, ◌⊎◌,
  is_empty, Bool-cases, arith, inl, inr, codes, bytes_eq, or_throw, Option-cases,
}
use duckdb_flock.Sql.Utf8.{encode_utf8}
use duckdb_flock.Sql.Params.Tokens.{
  ParamError, out_of_fuel, invalid_hex, unterminated_string, unterminated_nested, skip_whitespace,
  consume_here, consume_char, hex_value, StringState, in_text, in_escape, in_unicode, push, append,
  simple_escape, string_loop, string_here, parse_string, raw_string, raw_nested, raw_literal,
  literal_value, raw_here, parse_raw_value, cons_raw,
}
use duckdb_flock.Sql.Params.Tokens.Raw.{parse_raw_value-splits}
use duckdb_flock.Sql.Params.Request.{
  ParsedRequest, empty_request, ends_object, store_member, skip_comma, parse_member, request_loop,
  check_sql, request_here, parse_request,
}

-- A call ends with a result of a kind, or with an error that is not that of the model.
abbrev Ends : {A : Type 0} → (A → Type 0) → Result ParamError A → Type 0
Ends P (ok a) = P a
Ends P (err e) = e ≢ out_of_fuel

Ends-bind :
    {A B : Type 0} (P : A → Type 0) (Q : B → Type 0) (r : Result ParamError A)
    (rest : A → Result ParamError B)
    → Ends P r
    → ((a : A) → P a → Ends Q (rest a))
    → Ends Q (r >>= rest)
Ends-bind P Q (ok a) rest h k = k a h
Ends-bind P Q (err e) rest h k = h

Ends-weaken :
    {A : Type 0} (P Q : A → Type 0) (r : Result ParamError A)
    → Ends P r
    → ((a : A) → P a → Q a)
    → Ends Q r
Ends-weaken P Q (ok a) h k = k a h
Ends-weaken P Q (err e) h k = h

Ends-err :
    {A : Type 0} (P : A → Type 0) (r : Result ParamError A) (e : ParamError)
    → r ≡ err e
    → Ends P r
    → e ≢ out_of_fuel
Ends-err P (ok a) e h k = cc
Ends-err P (err x) e h k = λ j. k (ground arith)

-- What is left is shorter than the bound.
abbrev IsShorter : {A : Type 0} → ℕ → A × Bytes → Type 0
IsShorter n (a, rest) = length rest < n

abbrev Shrinks : {A : Type 0} → ℕ → Result ParamError (A × Bytes) → Type 0
Shrinks n r = Ends (IsShorter n) r

push-Shrinks :
    (c n : ℕ) (r : Result ParamError (Bytes × Bytes)) → Shrinks n r → Shrinks (suc n) (push c r)
unfolding push
push-Shrinks c n (ok (s, rest)) h = omega arith
push-Shrinks c n (err e) h = h

append-Shrinks :
    (s : Bytes) (n : ℕ) (r : Result ParamError (Bytes × Bytes))
    → Shrinks n r
    → Shrinks (suc n) (append s r)
unfolding append
append-Shrinks s n (ok (t, rest)) h = omega arith
append-Shrinks s n (err e) h = h

later-Shrinks : (n : ℕ) (r : Result ParamError (Bytes × Bytes)) → Shrinks n r → Shrinks (suc n) r
later-Shrinks n (ok (t, rest)) h = omega arith
later-Shrinks n (err e) h = h

digit-Shrinks :
    (n : ℕ) (o : Option ℕ) (more : ℕ → Result ParamError (Bytes × Bytes))
    → ((v : ℕ) → Shrinks n (more v))
    → Shrinks n (elim o [ none ↦ err invalid_hex | some v ↦ more v ])
digit-Shrinks n none more h = λ e. cc
digit-Shrinks n (some v) more h = h v

string_loop-Shrinks :
    (st : StringState) (json : Bytes) → Shrinks (length json) (string_loop st json)
unfolding string_loop
string_loop-Shrinks in_text [] = λ e. cc
string_loop-Shrinks in_text (c ∷ json) =
    let plain = push-Shrinks c _ _ (string_loop-Shrinks in_text json) in
    let escaped = later-Shrinks _ _ (string_loop-Shrinks in_escape json) in
    elim (Bool-cases (c == b'"')) [
      | inl q ↦ rw q (omega arith)
      | inr q ↦ rw q (elim (Bool-cases (c == 92)) [ inl b ↦ rw b escaped | inr b ↦ rw b plain ])
    ]
string_loop-Shrinks in_escape [] = λ e. cc
string_loop-Shrinks in_escape (c ∷ json) =
    let unicode = later-Shrinks _ _ (string_loop-Shrinks (in_unicode 3 0) json) in
    elim (Bool-cases (c == b'u')) [
      | inl q ↦ rw q (elim (Bool-cases (ltb (length json) 4)) [
        | inl b ↦ rw b (λ e. cc)
        | inr b ↦ rw b unicode
      ])
      | inr q ↦ rw q (elim (Option-cases (simple_escape c)) [
        | inl n ↦ rw n (λ e. cc)
        | inr (d, s) ↦ rw s (push-Shrinks d _ _ (string_loop-Shrinks in_text json))
      ])
    ]
string_loop-Shrinks (in_unicode n cp) [] = λ e. cc
string_loop-Shrinks (in_unicode zero cp) (c ∷ json) =
    digit-Shrinks _ (hex_value c)
      (λ v. append (encode_utf8 (cp * 16 + v)) (string_loop in_text json))
      (λ v. append-Shrinks (encode_utf8 (cp * 16 + v)) _ _ (string_loop-Shrinks in_text json))
string_loop-Shrinks (in_unicode (suc n) cp) (c ∷ json) =
    digit-Shrinks _ (hex_value c) (λ v. string_loop (in_unicode n (cp * 16 + v)) json)
      (λ v. later-Shrinks _ _ (string_loop-Shrinks (in_unicode n (cp * 16 + v)) json))

skip_whitespace-length : (json : Bytes) → length (skip_whitespace json) ≤ length json
unfolding skip_whitespace
skip_whitespace-length [] = omega arith
skip_whitespace-length (c ∷ json) = let h = skip_whitespace-length json in ground arith

wider-Shrinks :
    {A : Type 0} (n m : ℕ) (r : Result ParamError (A × Bytes)) → n ≤ m → Shrinks n r → Shrinks m r
wider-Shrinks n m r h k = Ends-weaken (IsShorter n) (IsShorter m) r k (λ p q. omega arith)

string_here-Shrinks : (json : Bytes) → Shrinks (length json) (string_here json)
unfolding string_here
string_here-Shrinks [] = λ e. cc
string_here-Shrinks (c ∷ json) = elim (Bool-cases (c == b'"')) [
  | inl q ↦ rw q (later-Shrinks _ _ (string_loop-Shrinks in_text json))
  | inr q ↦ rw q (λ e. cc)
]

parse_string-Shrinks : (json : Bytes) → Shrinks (length json) (parse_string json)
unfolding parse_string
parse_string-Shrinks json =
    wider-Shrinks _ _ (string_here (skip_whitespace json)) (skip_whitespace-length json)
      (string_here-Shrinks (skip_whitespace json))

-- The same of a call that returns what is left only.
abbrev Consumes : ℕ → Result ParamError Bytes → Type 0
Consumes n r = Ends (λ rest. length rest ≤ n) r

consume_here-Consumes : (c : ℕ) (json : Bytes) → Consumes (length json) (consume_here c json)
unfolding consume_here
consume_here-Consumes c [] = λ e. cc
consume_here-Consumes c (d ∷ json) = elim (Bool-cases (d == c)) [
  | inl q ↦ rw q (omega arith)
  | inr q ↦ rw q (λ e. cc)
]

consume_char-Consumes : (c : ℕ) (json : Bytes) → Consumes (length json) (consume_char c json)
unfolding consume_char
consume_char-Consumes c json =
    Ends-weaken _ _ (consume_here c (skip_whitespace json))
      (consume_here-Consumes c (skip_whitespace json))
      (λ rest h. let k = skip_whitespace-length json in omega arith)

skip_comma-Consumes : (first : Bool) (json : Bytes) → Consumes (length json) (skip_comma first json)
unfolding skip_comma
skip_comma-Consumes true json = omega arith
skip_comma-Consumes false json =
    Ends-bind _ _ (consume_char b',' json) _ (consume_char-Consumes b',' json)
      (λ rest h. let k = skip_whitespace-length rest in omega arith)

raw_literal-value : (p : Bytes × Bytes) (e : ParamError) → literal_value p ≡ err e → e ≢ out_of_fuel
unfolding literal_value
raw_literal-value ([], rest) e h = λ k. cc
raw_literal-value (c ∷ raw, rest) e h = cc

or_throw-fuel :
    (o : Option (Bytes × Bytes)) (x e : ParamError)
    → x ≢ out_of_fuel
    → or_throw o x ≡ err e
    → e ≢ out_of_fuel
or_throw-fuel none x e h k = ground arith
or_throw-fuel (some p) x e h k = cc

raw_here-err : (json : Bytes) (e : ParamError) → raw_here json ≡ err e → e ≢ out_of_fuel
unfolding raw_here
raw_here-err [] e h = λ k. cc
raw_here-err (c ∷ json) e h =
    let quoted = or_throw-fuel (cons_raw c (raw_string json)) unterminated_string e (λ k. cc) in
    let curly =
      or_throw-fuel (raw_nested b'{' b'}' 0 false (c ∷ json)) unterminated_nested e (λ k. cc) in
    let square =
      or_throw-fuel (raw_nested b'[' b']' 0 false (c ∷ json)) unterminated_nested e (λ k. cc) in
    let literal = raw_literal-value (raw_literal (c ∷ json)) e in ground arith

parse_raw_value-Shrinks : (json : Bytes) → Shrinks (length json) (parse_raw_value json)
unfolding parse_raw_value
parse_raw_value-Shrinks json = elim (Result-cases (parse_raw_value json)) [
  | inl ((raw, rest), h) ↦
      let (cut, filled) = parse_raw_value-splits json raw rest h in
      rw h (shorter raw rest filled (ap length cut))
  | inr (e, h) ↦ rw h (raw_here-err (skip_whitespace json) e h)
]
  where
    shorter :
        (raw rest : Bytes)
        → raw ≢ []
        → length (skip_whitespace json) ≡ length (raw ++ rest)
        → length rest < length json
    shorter [] rest f h = absurd (f refl)
    shorter (c ∷ raw) rest f h = omega (arith, length-append raw rest, skip_whitespace-length json)

store_member-Ends :
    (name raw : Bytes) (r : ParsedRequest) → Ends (λ _. Unit) (store_member name raw r)
unfolding store_member
store_member-Ends name raw r =
    let sql =
      Ends-bind _ (λ _. Unit) (parse_string raw) (λ s. ok (record r { sql = s.0 }))
        (parse_string-Shrinks raw) (λ _ _. tt) in
    let session =
      Ends-bind _ (λ _. Unit) (parse_string raw) (λ s. ok (record r { session_id = s.0 }))
        (parse_string-Shrinks raw) (λ _ _. tt) in
    elim (Bool-cases (bytes_eq name (codes "sql"))) [
      | inl a ↦ rw a sql
      | inr a ↦ rw a (elim (Bool-cases (bytes_eq name (codes "sessionId"))) [
        | inl b ↦ rw b session
        | inr b ↦ rw b (elim (Bool-cases (bytes_eq name (codes "params"))) [
          | inl c ↦ rw c tt
          | inr c ↦ rw c tt
        ])
      ])
    ]

parse_member-Shrinks :
    (first : Bool) (json : Bytes) (r : ParsedRequest)
    → Shrinks (length json) (parse_member first json r)
unfolding parse_member
parse_member-Shrinks first json r =
    Ends-bind _ _ (skip_comma first json) _ (skip_comma-Consumes first json) (λ start a.
      Ends-bind _ _ (parse_string start) _ (parse_string-Shrinks start) (λ name b.
        Ends-bind _ _ (consume_char b':' name.1) _ (consume_char-Consumes b':' name.1) (λ behind c.
          Ends-bind _ _ (parse_raw_value behind) _ (parse_raw_value-Shrinks behind) (λ value d.
            Ends-bind _ _ (store_member name.0 value.0 r) _ (store_member-Ends name.0 value.0 r)
              (λ next _. omega arith)))))

request_loop-Ends :
    (fuel : ℕ) (first : Bool) (json : Bytes) (r : ParsedRequest)
    → length json < fuel
    → Ends (λ _. Unit) (request_loop fuel first json r)
unfolding request_loop
request_loop-Ends zero first json r h = absurd (omega arith)
request_loop-Ends (suc fuel) first json r h =
    elim (Bool-cases (ends_object (skip_whitespace json))) [
      | inl e ↦ rw e tt
      | inr e ↦ rw e (
          Ends-bind _ _ (parse_member first (skip_whitespace json) r) _
            (parse_member-Shrinks first (skip_whitespace json) r)
            (λ p k.
              let l = skip_whitespace-length json in
              request_loop-Ends fuel false p.1 p.0 (omega arith)))
    ]

check_sql-Ends : (r : ParsedRequest) → Ends (λ _. Unit) (check_sql r)
unfolding check_sql
check_sql-Ends r = elim (Bool-cases (is_empty r.sql)) [ inl e ↦ rw e (λ k. cc) | inr e ↦ rw e tt ]

request_here-Ends : (body : Bytes) → Ends (λ _. Unit) (request_here body)
unfolding request_here
request_here-Ends [] = λ e. cc
request_here-Ends (c ∷ json) = elim (Bool-cases (c == b'{')) [
  | inl e ↦ rw e (
      Ends-bind _ _ (request_loop (suc (length json)) true json empty_request) check_sql
        (request_loop-Ends (suc (length json)) true json empty_request (omega arith))
        (λ r _. check_sql-Ends r))
  | inr e ↦ rw e (λ k. cc)
]

-- Whatever the body is, the loop of `ParseRequest` comes to an end: with a request, or with one of
-- the errors of the code.
pub parse_request_terminates :
    (body : Bytes)
    → ((r : ParsedRequest) × (parse_request body ≡ ok r))
      ⊎ ((e : ParamError) × (parse_request body ≡ err e) × (e ≢ out_of_fuel))
unfolding parse_request
parse_request_terminates body = elim (Result-cases (parse_request body)) [
  | inl (r, h) ↦ inl (r, h)
  | inr (e, h) ↦ inr (
    e,
    h,
    Ends-err (λ _. Unit) (parse_request body) e h (request_here-Ends (skip_whitespace body)),
  )
]
