-- ===== src/Auth/Text/CookieHeader.antt =====
-- `ExtractCookie` against a Cookie header as a list of names and values.
use duckdb_flock.Base.{
  ℕ, zero, suc, ◌+◌, ◌-◌, ◌≡◌, ◌≢◌, ◌≤◌, refl, ap, ◌∙◌, false, none, some, List, [], ◌∷◌, ◌++◌,
  Bytes, is_empty, is_space, length-append, bytes_eq, length, take, drop, All, arith, if◌then◌else◌,
  append_assoc,
}
use duckdb_flock.Auth.Text.{
  Round, found, stop, next, cookie_round, skip_spaces, find, extract_cookie_loop, extract_cookie,
}

abbrev Lacks : ℕ → Bytes → Type 0
Lacks c = All (λ d. d ≢ c)

find-append : (c : ℕ) (s t : Bytes) → Lacks c s → find c (s ++ c ∷ t) ≡ some (length s)
unfolding find
find-append c [] t h = ground arith
find-append c (d ∷ s) t h = ground (arith, h.0, find-append c s t h.1)

find-none : (c : ℕ) (s : Bytes) → Lacks c s → find c s ≡ none
unfolding find
find-none c [] h = refl
find-none c (d ∷ s) h = ground (arith, h.0, find-none c s h.1)

Lacks-append : (c : ℕ) (s t : Bytes) → Lacks c s → Lacks c t → Lacks c (s ++ t)
Lacks-append c [] t h k = k
Lacks-append c (d ∷ s) t h k = (h.0, Lacks-append c s t h.1 k)

take-append : (s t : Bytes) → take (length s) (s ++ t) ≡ s
take-append [] t = refl
take-append (c ∷ s) t = ap (λ r. c ∷ r) (take-append s t)

drop-append : (s t : Bytes) → drop (length s) (s ++ t) ≡ t
drop-append [] t = refl
drop-append (c ∷ s) t = drop-append s t

drop-suc-append : (s : Bytes) (c : ℕ) (t : Bytes) → drop (suc (length s)) (s ++ c ∷ t) ≡ t
drop-suc-append [] c t = refl
drop-suc-append (d ∷ s) c t = drop-suc-append s c t

-- A name, an equals sign and a value, behind one another with "; " between.
pub record Pair : Type 0 where
  pub name : Bytes
  pub value : Bytes

abbrev pub NoSpace : Bytes → Type 0
NoSpace [] = Unit
NoSpace (c ∷ s) = is_space c ≡ false

pub record IsPair (p : Pair) : Type 0 where
  pub name_no_eq : Lacks b'=' p.name
  pub name_no_semi : Lacks b';' p.name
  pub name_no_space : NoSpace p.name
  pub value_no_semi : Lacks b';' p.value

unfoldable pub render : List Pair → Bytes
render [] = []
render (p ∷ []) = p.name ++ b'=' ∷ p.value
render (p ∷ q ∷ ps) = p.name ++ b'=' ∷ (p.value ++ b';' ∷ b' ' ∷ render (q ∷ ps))

-- The value of the first pair of the name, or nothing.
unfoldable pub lookup_pair : Bytes → List Pair → Bytes
lookup_pair name [] = []
lookup_pair name (p ∷ ps) = if bytes_eq p.name name then p.value else lookup_pair name ps

skip_spaces-name : (s t : Bytes) → NoSpace s → skip_spaces (s ++ b'=' ∷ t) ≡ s ++ b'=' ∷ t
unfolding skip_spaces is_space
skip_spaces-name [] t h = refl
skip_spaces-name (c ∷ s) t h = rw h refl

is_empty-name : (s t : Bytes) (c : ℕ) → is_empty (s ++ c ∷ t) ≡ false
is_empty-name [] t c = refl
is_empty-name (d ∷ s) t c = refl

-- A round at a text that begins with a pair.
module _ (wanted : Bytes) (p : Pair) (w : IsPair p) where
  round_last :
      cookie_round wanted (p.name ++ b'=' ∷ p.value)
      ≡ (if bytes_eq p.name wanted then found p.value else stop)
  unfolding cookie_round
  round_last = ground (
    arith,
    find-append b'=' p.name p.value w.name_no_eq,
    find-none b';' (p.name ++ b'=' ∷ p.value)
        (Lacks-append b';' p.name (b'=' ∷ p.value) w.name_no_semi (omega arith, w.value_no_semi)),
    take-append p.name (b'=' ∷ p.value),
    drop-suc-append p.name b'=' p.value,
  )

  semi_at :
      (rest : Bytes)
      → find b';' (p.name ++ b'=' ∷ (p.value ++ b';' ∷ rest))
        ≡ some (length p.name + suc (length p.value))
  semi_at rest = rw (← append_assoc p.name (b'=' ∷ p.value) (b';' ∷ rest)) (
      find-append b';' (p.name ++ b'=' ∷ p.value) rest
        (Lacks-append b';' p.name (b'=' ∷ p.value) w.name_no_semi (omega arith, w.value_no_semi))
      ∙ ap some (length-append p.name (b'=' ∷ p.value)))

  after_semi :
      (rest : Bytes)
      → drop
          (suc (length p.name + suc (length p.value)))
          (p.name ++ b'=' ∷ (p.value ++ b';' ∷ rest))
        ≡ rest
  after_semi rest =
      rw
        (
          ← length-append p.name (b'=' ∷ p.value),
          ← append_assoc p.name (b'=' ∷ p.value) (b';' ∷ rest),
        )
        (drop-suc-append (p.name ++ b'=' ∷ p.value) b';' rest)

  round_pair :
      (rest : Bytes)
      → cookie_round wanted (p.name ++ b'=' ∷ (p.value ++ b';' ∷ rest))
        ≡ (if bytes_eq p.name wanted then found p.value else next rest)
  unfolding cookie_round
  round_pair rest =
      let tail : Bytes = p.value ++ b';' ∷ rest in
      let span : length p.name + suc (length p.value) - suc (length p.name) ≡ length p.value =
        omega arith in
      let value_at : take (length p.name + suc (length p.value) - suc (length p.name)) tail
          ≡ p.value =
        rw span (take-append p.value (b';' ∷ rest)) in
      ground (
        arith,
        find-append b'=' p.name tail w.name_no_eq,
        semi_at rest,
        take-append p.name (b'=' ∷ tail),
        drop-suc-append p.name b'=' tail,
        value_at,
        after_semi rest,
      )

-- Two names in a row: the text behind a semicolon begins with a space.
loop_space :
    (fuel : ℕ) (wanted : Bytes) (c : ℕ) (s : Bytes)
    → extract_cookie_loop fuel wanted (b' ' ∷ c ∷ s) ≡ extract_cookie_loop fuel wanted (c ∷ s)
unfolding extract_cookie_loop is_space
loop_space zero wanted c s = refl
loop_space (suc fuel) wanted c s = refl

abbrev after : ℕ → Bytes → Round → Bytes
after fuel wanted (found value) = value
after fuel wanted stop = []
after fuel wanted (next s) = extract_cookie_loop fuel wanted s

loop_step :
    (fuel : ℕ) (wanted n t : Bytes)
    → NoSpace n
    → extract_cookie_loop (suc fuel) wanted (n ++ b'=' ∷ t)
      ≡ after fuel wanted (cookie_round wanted (n ++ b'=' ∷ t))
unfolding extract_cookie_loop is_space
loop_step fuel wanted [] t h = ground arith
loop_step fuel wanted (c ∷ n) t h = ground (arith, h)

lead :
    (fuel : ℕ) (wanted n t : Bytes)
    → extract_cookie_loop fuel wanted (b' ' ∷ (n ++ b'=' ∷ t))
      ≡ extract_cookie_loop fuel wanted (n ++ b'=' ∷ t)
lead fuel wanted [] t = loop_space fuel wanted b'=' t
lead fuel wanted (c ∷ n) t = loop_space fuel wanted c (n ++ b'=' ∷ t)

lead-render :
    (fuel : ℕ) (wanted : Bytes) (p : Pair) (ps : List Pair)
    → extract_cookie_loop fuel wanted (b' ' ∷ render (p ∷ ps))
      ≡ extract_cookie_loop fuel wanted (render (p ∷ ps))
unfolding render
lead-render fuel wanted p [] = lead fuel wanted p.name p.value
lead-render fuel wanted p (q ∷ ps) = lead fuel wanted p.name _

loop-render :
    (ps : List Pair) (fuel : ℕ) (wanted : Bytes)
    → All IsPair ps
    → length ps ≤ fuel
    → extract_cookie_loop fuel wanted (render ps) ≡ lookup_pair wanted ps
unfolding render lookup_pair
loop-render [] zero wanted w h = unfold extract_cookie_loop in refl
loop-render [] (suc fuel) wanted w h = unfold extract_cookie_loop in refl
loop-render (p ∷ ps) zero wanted w h = absurd (omega arith)
loop-render (p ∷ []) (suc fuel) wanted w h =
    rw (loop_step fuel wanted p.name p.value w.0.name_no_space, round_last wanted p w.0)
      (ground arith)
loop-render (p ∷ q ∷ ps) (suc fuel) wanted w h =
    rw
      (
        loop_step fuel wanted p.name (p.value ++ b';' ∷ b' ' ∷ render (q ∷ ps)) w.0.name_no_space,
        round_pair wanted p w.0 (b' ' ∷ render (q ∷ ps)),
      )
      (ground
        (arith, lead-render fuel wanted q ps, loop-render (q ∷ ps) fuel wanted w.1 (omega arith)))

length-le-render : (ps : List Pair) → length ps ≤ length (render ps)
unfolding render
length-le-render [] = omega arith
length-le-render (p ∷ []) = omega (arith, length-append p.name (b'=' ∷ p.value))
length-le-render (p ∷ q ∷ ps) = omega (
  arith,
  length-append p.name (b'=' ∷ (p.value ++ b';' ∷ b' ' ∷ render (q ∷ ps))),
  length-append p.value (b';' ∷ b' ' ∷ render (q ∷ ps)),
  length-le-render (q ∷ ps),
)

is_empty-render : (p : Pair) (ps : List Pair) → is_empty (render (p ∷ ps)) ≡ false
unfolding render
is_empty-render p [] = is_empty-name p.name p.value b'='
is_empty-render p (q ∷ ps) = is_empty-name p.name _ b'='

-- From a Cookie header of well-formed pairs, the value of the first pair of the name wanted is
-- extracted, and the empty text where no pair has the name.
pub extract_cookie-render :
    (ps : List Pair) (wanted : Bytes)
    → All IsPair ps
    → is_empty wanted ≡ false
    → extract_cookie (render ps) wanted ≡ lookup_pair wanted ps
extract_cookie-render [] wanted w h = unfold extract_cookie render lookup_pair in refl
extract_cookie-render (p ∷ ps) wanted w h =
    unfold extract_cookie in
    rw (is_empty-render p ps, h)
      (loop-render (p ∷ ps) (suc (length (render (p ∷ ps)))) wanted w
        (omega (arith, length-le-render (p ∷ ps))))
