-- ===== src/Auth/Cookie/Decimal.antt =====
-- The C++ library's `std::to_string` of a `uint64_t` and `std::stoull`, as harbor_auth.cpp uses
-- them for the expiry of a cookie.
use duckdb_flock.Base.{
  ℕ, zero, suc, ◌+◌, ◌-◌, ◌*◌, ◌/◌, ◌%◌, ◌^◌, ◌<◌, ◌≤◌, ◌≡◌, refl, ◌∙◌, ap, Bool, true, false, ◌&&◌,
  Option, none, some, [], ◌∷◌, ◌++◌, append_assoc, append-nil, sym, Bytes, IsByte, AreBytes,
  All-append, is_space, ltb, leb, ◌==◌, lt→ltb, ltb→lt, Bool-cases, inl, inr, if◌then◌else◌, arith,
}
use native.Mathlib.Nat.{pow-suc}
use duckdb_flock.Auth.Text.{skip_spaces}

decimal_loop : ℕ → ℕ → Bytes
decimal_loop zero n = []
decimal_loop (suc fuel) n =
    let front = decimal_loop fuel (n / 10) in
    if ltb n 10 then (b'0' + n) ∷ [] else front ++ (b'0' + n % 10) ∷ []

-- A `uint64_t` has at most 20 digits.
unfoldable pub to_decimal : ℕ → Bytes
unfolding decimal_loop
to_decimal n = decimal_loop 20 n

-- The digits from here on, and the number of digits read.
unfoldable pub read_digits : ℕ → ℕ → Bytes → ℕ × ℕ
read_digits value count [] = (value, count)
read_digits value count (c ∷ s) =
    let more = read_digits (value * 10 + (c - b'0')) (suc count) s in
    if leb b'0' c && leb c b'9' then more else (value, count)

-- No digit is `invalid_argument`, and a value of more than 64 bits `out_of_range`: `none`.
in_range : Bool → ℕ × ℕ → Option ℕ
in_range negative (value, zero) = none
in_range negative (value, suc count) =
    if leb (2 ^ 64) value
    then none
    else some (if negative then (2 ^ 64 - value) % 2 ^ 64 else value)

unsigned : Bytes → Option ℕ
unfolding in_range read_digits
unsigned [] = none
unsigned (c ∷ s) =
    if c == b'-'
    then in_range true (read_digits 0 0 s)
    else if c == b'+'
    then in_range false (read_digits 0 0 s)
    else in_range false (read_digits 0 0 (c ∷ s))

unfoldable pub stoull : Bytes → Option ℕ
unfolding skip_spaces unsigned
stoull s = unsigned (skip_spaces s)

one_digit :
    (value count d : ℕ) (rest : Bytes)
    → d < 10
    → read_digits value count ((b'0' + d) ∷ rest) ≡ read_digits (value * 10 + d) (suc count) rest
unfolding read_digits
one_digit value count d rest h =
    let digit : b'0' + d - b'0' ≡ d = omega arith in rw digit (ground arith)

fewer_digits : (fuel n : ℕ) → n < 10 ^ suc (suc fuel) → n / 10 < 10 ^ suc fuel
fewer_digits fuel n h =
    let e : 10 ^ suc (suc fuel) ≡ 10 ^ suc fuel * 10 = pow-suc 10 (suc fuel) in omega arith

print_front :
    (fuel n : ℕ)
    → ltb n 10 ≡ false
    → decimal_loop (suc fuel) n ≡ decimal_loop fuel (n / 10) ++ (b'0' + n % 10) ∷ []
unfolding decimal_loop
print_front fuel n h = rw h refl

print_last :
    (fuel n count : ℕ) (rest : Bytes)
    → ltb n 10 ≡ true
    → read_digits 0 count (decimal_loop (suc fuel) n ++ rest) ≡ read_digits n (suc count) rest
unfolding decimal_loop
print_last fuel n count rest h =
    let value : 0 * 10 + n ≡ n = omega arith in
    rw h (one_digit 0 count n rest (ltb→lt n 10 h) ∙ ap (λ m. read_digits m (suc count) rest) value)

print_more :
    (fuel n count : ℕ) (rest : Bytes)
    → ltb n 10 ≡ false
    → read_digits 0 count (decimal_loop (suc (suc fuel)) n ++ rest)
      ≡ read_digits 0 count (decimal_loop (suc fuel) (n / 10) ++ (b'0' + n % 10) ∷ rest)
print_more fuel n count rest h =
    ap (λ t. read_digits 0 count (t ++ rest)) (print_front (suc fuel) n h)
    ∙ ap (λ t. read_digits 0 count t)
        (append_assoc (decimal_loop (suc fuel) (n / 10)) ((b'0' + n % 10) ∷ []) rest)

-- Reading goes on behind a printed number.
read-decimal_loop :
    (fuel n count : ℕ) (rest : Bytes)
    → n < 10 ^ suc fuel
    → (k : ℕ) × (read_digits 0 count (decimal_loop (suc fuel) n ++ rest)
        ≡ read_digits n (suc k) rest)
read-decimal_loop zero n count rest h =
    (count, print_last zero n count rest (lt→ltb n 10 (omega arith)))
read-decimal_loop (suc fuel) n count rest h = elim (Bool-cases (ltb n 10)) [
  | inl small ↦ (count, print_last (suc fuel) n count rest small)
  | inr large ↦
      let (k, e) =
        read-decimal_loop fuel (n / 10) count ((b'0' + n % 10) ∷ rest) (fewer_digits fuel n h) in
      let whole : n / 10 * 10 + n % 10 ≡ n = omega arith in
      (
        suc k,
        print_more fuel n count rest large
            ∙ e
            ∙ one_digit (n / 10) (suc k) (n % 10) rest (omega arith)
            ∙ ap (λ m. read_digits m (suc (suc k)) rest) whole,
      )
]

-- A printed number has bytes for its characters.
decimal_loop-AreBytes : (fuel n : ℕ) → AreBytes (decimal_loop fuel n)
unfolding decimal_loop
decimal_loop-AreBytes zero n = tt
decimal_loop-AreBytes (suc fuel) n = elim (Bool-cases (ltb n 10)) [
  | inl small ↦ rw small (omega (arith, ltb→lt n 10 small))
  | inr large ↦ rw large (
      All-append IsByte (decimal_loop fuel (n / 10)) _ (decimal_loop-AreBytes fuel (n / 10))
        (omega arith))
]

pub to_decimal-AreBytes : (n : ℕ) → AreBytes (to_decimal n)
unfolding to_decimal
to_decimal-AreBytes n = decimal_loop-AreBytes 20 n

-- The first character is a digit, so that neither white space nor a sign is read.
first_digit :
    (fuel n : ℕ) → (c : ℕ) × (s : Bytes) × (decimal_loop (suc fuel) n ≡ c ∷ s) × (b'0' ≤ c)
unfolding decimal_loop
first_digit zero n = elim (Bool-cases (ltb n 10)) [
  | inl small ↦ (b'0' + n, [], unfold decimal_loop in rw small refl, omega arith)
  | inr large ↦ (b'0' + n % 10, [], print_front zero n large, omega arith)
]
first_digit (suc fuel) n = elim (Bool-cases (ltb n 10)) [
  | inl small ↦ (b'0' + n, [], unfold decimal_loop in rw small refl, omega arith)
  | inr large ↦
      let (c, s, e, h) = first_digit fuel (n / 10) in
      (
        c,
        s ++ (b'0' + n % 10) ∷ [],
        print_front (suc fuel) n large ∙ ap (λ t. t ++ (b'0' + n % 10) ∷ []) e,
        h,
      )
]

-- A text that begins with a digit is read from its first character on.
from_digit :
    (c : ℕ) (s : Bytes) → b'0' ≤ c → stoull (c ∷ s) ≡ in_range false (read_digits 0 0 (c ∷ s))
unfolding skip_spaces unsigned is_space
from_digit c s h = (unfold stoull in rw (not_space c h, ne_minus c h, ne_plus c h) refl)
  where
    not_space : (c : ℕ) → b'0' ≤ c → is_space c ≡ false
    not_space c h = ground arith

    ne_minus : (c : ℕ) → b'0' ≤ c → (c == b'-') ≡ false
    ne_minus c h = ground arith

    ne_plus : (c : ℕ) → b'0' ≤ c → (c == b'+') ≡ false
    ne_plus c h = ground arith

fits : (n k : ℕ) → n < 2 ^ 64 → in_range false (read_digits n (suc k) []) ≡ some n
unfolding in_range read_digits
fits n k h = ground arith

-- Printing a 64-bit number and reading it gives the number back.
pub stoull-to_decimal : (n : ℕ) → n < 2 ^ 64 → stoull (to_decimal n) ≡ some n
stoull-to_decimal n h =
    let (c, s, e, digit) = first_digit 19 n in
    let (k, r) = read-decimal_loop 19 n 0 [] (omega arith) in
    let text : to_decimal n ≡ c ∷ s = unfold to_decimal in e in
    ap stoull text
    ∙ from_digit c s digit
    ∙ ap (in_range false) (ap (read_digits 0 0) (sym e ∙ sym (append-nil (decimal_loop 20 n))) ∙ r)
    ∙ fits n k h
