-- ===== src/Prelude/Text/Decimal.antt =====
-- `to_string` of an unsigned integer and `str::parse::<u32>`.
use Prim.Native.Nat.{ℕ, zero, suc, ◌+◌, ◌-◌, ◌*◌, ◌/◌, ◌%◌, ◌^◌, ◌<◌}
use mathlib.Core.Path.{◌≡◌, refl, sym, ◌∙◌, ap}
use mathlib.Core.Logic.{inl, inr}
use mathlib.Core.Bool.{Bool, ◌&&◌}
use mathlib.Core.Option.{Option, none, some}
use mathlib.Core.List.{List, [], ◌∷◌, ◌++◌}
use native.Mathlib.Omega.{arith}
use native.Mathlib.Nat.{pow-suc}
use krata.Prelude.Tests.{ltb, leb, ◌==◌, if◌then◌else◌, Bool-cases, Option-cases}
use krata.Prelude.Lists.{All}

-- At most `fuel` digits; twenty are enough below 2 ^ 64.
unfoldable pub digits : ℕ → ℕ → List ℕ
digits zero n = []
digits (suc fuel) n =
    let front = digits fuel (n / 10) in
    if ltb n 10 then (48 + n) ∷ [] else front ++ (48 + n % 10) ∷ []

unfoldable pub to_string : ℕ → List ℕ
unfolding digits
to_string n = digits 20 n

pub is_digit : ℕ → Bool
is_digit c = leb 48 c && leb c 57

-- One digit more, unless the value leaves the type.
pub push_digit : ℕ → ℕ → ℕ → Option ℕ
unfolding is_digit
push_digit limit acc c =
    if is_digit c
    then if ltb (acc * 10 + (c - 48)) limit then some (acc * 10 + (c - 48)) else none
    else none

pub parse_digits : ℕ → ℕ → List ℕ → Option ℕ
parse_digits limit acc [] = some acc
parse_digits limit acc (c ∷ cs) = elim (push_digit limit acc c) [
  | none ↦ none
  | some acc' ↦ parse_digits limit acc' cs
]

-- A sign `+` is allowed, and then at least one digit is wanted.
pub parse_unsigned : ℕ → List ℕ → Option ℕ
unfolding parse_digits push_digit
parse_unsigned limit [] = none
parse_unsigned limit (c ∷ []) = if c == 43 then none else parse_digits limit 0 (c ∷ [])
parse_unsigned limit (c ∷ d ∷ cs) =
    if c == 43 then parse_digits limit 0 (d ∷ cs) else parse_digits limit 0 (c ∷ d ∷ cs)

unfoldable pub parse_u32 : List ℕ → Option ℕ
unfolding parse_unsigned
parse_u32 = parse_unsigned (2 ^ 32)

push_digit_small :
    (limit acc d : ℕ)
    → d < 10
    → acc * 10 + d < limit
    → push_digit limit acc (48 + d) ≡ some (acc * 10 + d)
unfolding push_digit
push_digit_small limit acc d h k = ground arith

parse_digits-snoc :
    (limit acc d n : ℕ) (cs : List ℕ)
    → parse_digits limit acc cs ≡ some n
    → d < 10
    → n * 10 + d < limit
    → parse_digits limit acc (cs ++ (48 + d) ∷ []) ≡ some (n * 10 + d)
unfolding parse_digits
parse_digits-snoc limit acc d n [] e h k =
    let same : acc ≡ n = cc e in rw (same, push_digit_small limit n d h k, parse_digits) refl
parse_digits-snoc limit acc d n (c ∷ cs) e h k = elim (Option-cases (push_digit limit acc c)) [
  | inl p ↦ ground arith
  | inr (acc', p) ↦ ground (arith, parse_digits-snoc limit acc' d n cs)
]

one_digit : (limit n : ℕ) → n < 10 → n < limit → parse_digits limit 0 ((48 + n) ∷ []) ≡ some n
unfolding parse_digits
one_digit limit n h k =
    rw (push_digit_small limit 0 n h (omega arith), parse_digits) (ap some (omega arith))

parse_digits-digits :
    (limit fuel n : ℕ)
    → n < 10 ^ suc fuel
    → n < limit
    → parse_digits limit 0 (digits (suc fuel) n) ≡ some n
unfolding digits
parse_digits-digits limit zero n h k = ground (arith, one_digit limit n)
parse_digits-digits limit (suc fuel) n h k = elim (Bool-cases (ltb n 10)) [
  | inl small ↦ rw small (one_digit limit n (ground arith) k)
  | inr large ↦ rw large (
      parse_digits-snoc limit 0 (n % 10) (n / 10) (digits (suc fuel) (n / 10))
        (parse_digits-digits limit fuel (n / 10) (omega (arith, pow-suc 10 (suc fuel)))
          (omega arith))
        (omega arith) (omega arith)
      ∙ ap some (omega arith))
]

digits-head :
    (fuel n : ℕ)
    → n < 10 ^ suc fuel
    → (c : ℕ) × (cs : List ℕ) × (digits (suc fuel) n ≡ (48 + c) ∷ cs)
unfolding digits
digits-head zero n h = (n, [], ground arith)
digits-head (suc fuel) n h = elim (Bool-cases (ltb n 10)) [
  | inl small ↦ (n, [], rw small)
  | inr large ↦
      let (c, cs, e) = digits-head fuel (n / 10) (omega (arith, pow-suc 10 (suc fuel))) in
      (c, cs ++ (48 + n % 10) ∷ [], rw large (ap (λ t. t ++ (48 + n % 10) ∷ []) e))
]

parse_unsigned_digit :
    (limit c : ℕ) (cs : List ℕ)
    → parse_unsigned limit ((48 + c) ∷ cs) ≡ parse_digits limit 0 ((48 + c) ∷ cs)
unfolding parse_unsigned
parse_unsigned_digit limit c [] = ground arith
parse_unsigned_digit limit c (d ∷ cs) = ground arith

parse_unsigned-digits :
    (limit fuel n : ℕ)
    → n < 10 ^ suc fuel
    → n < limit
    → parse_unsigned limit (digits (suc fuel) n) ≡ some n
parse_unsigned-digits limit fuel n h k =
    let (c, cs, e) = digits-head fuel n h in
    ap (parse_unsigned limit) e
    ∙ parse_unsigned_digit limit c cs
    ∙ sym (ap (parse_digits limit 0) e)
    ∙ parse_digits-digits limit fuel n h k

-- A u32 is read back from its decimal digits.
pub parse_u32-to_string : (n : ℕ) → n < 2 ^ 32 → parse_u32 (to_string n) ≡ some n
unfolding parse_u32 to_string
parse_u32-to_string n h = parse_unsigned-digits (2 ^ 32) 19 n (omega arith) h

-- Decimal digits hold no NUL byte.
pub digits-nonzero : (fuel n : ℕ) → All (λ c. 0 < c) (digits fuel n)
unfolding digits
digits-nonzero zero n = tt
digits-nonzero (suc fuel) n = elim (Bool-cases (ltb n 10)) [
  | inl small ↦ rw small (omega arith, tt)
  | inr large ↦ rw large (snoc (digits fuel (n / 10)) (digits-nonzero fuel (n / 10)))
]
  where
    snoc : (xs : List ℕ) → All (λ c. 0 < c) xs → All (λ c. 0 < c) (xs ++ (48 + n % 10) ∷ [])
    snoc [] h = (omega arith, tt)
    snoc (x ∷ xs) h = (h.0, snoc xs h.1)
