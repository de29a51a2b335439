-- ===== src/Prelude/Text/Hex.antt =====
-- Numbers in base 16: `{:0wx}` of Rust's formatting, and `from_str_radix(s, 16)` of the unsigned types.
use krata.Prelude.Tests.{ltb, leb, ◌==◌, Bool-cases, if◌then◌else◌}
use Prim.Native.Nat.{ℕ, zero, suc, ◌+◌, ◌-◌, ◌*◌, ◌/◌, ◌%◌, ◌^◌, ◌<◌, ◌≤◌, max}
use mathlib.Core.Path.{◌≡◌, refl, ap, ◌∙◌}
use mathlib.Core.Bool.{Bool, true, false, ◌&&◌}
use mathlib.Core.Option.{Option, none, some}
use mathlib.Core.List.{List, [], ◌∷◌, ◌++◌}
use native.Mathlib.Omega.{arith}
use native.Mathlib.Nat.{pow-suc}
use mathlib.Core.Logic.{inl, inr}

unfoldable pub hex_digit : ℕ → ℕ
hex_digit d = if ltb d 10 then 48 + d else 87 + d

-- The `w` low digits.
unfoldable pub low_digits : ℕ → ℕ → List ℕ
unfolding hex_digit
low_digits zero n = []
low_digits (suc w) n = low_digits w (n / 16) ++ hex_digit (n % 16) ∷ []

-- The number of digits, 1 for 0, where `fuel` of them are enough.
unfoldable pub hex_length : ℕ → ℕ → ℕ
hex_length zero n = 1
hex_length (suc fuel) n = let more = hex_length fuel (n / 16) in if ltb n 16 then 1 else more + 1

-- Of a number of 64 bits.
unfoldable pub format_hex : ℕ → ℕ → List ℕ
unfolding low_digits hex_length
format_hex w n = low_digits (max w (hex_length 16 n)) n

unfoldable pub digit_value : ℕ → Option ℕ
digit_value c =
    if leb 48 c && ltb c 58
    then some (c - 48)
    else if leb 97 c && ltb c 103
    then some (c - 87)
    else if leb 65 c && ltb c 71
    then some (c - 55)
    else none

abbrev pub shift_in : ℕ → ℕ → (ℕ → Option ℕ) → Option ℕ → Option ℕ
shift_in bits acc rest none = none
shift_in bits acc rest (some d) =
    if ltb (acc * 16 + d) (2 ^ bits) then rest (acc * 16 + d) else none

unfoldable pub parse_hex_digits : ℕ → ℕ → List ℕ → Option ℕ
unfolding digit_value
parse_hex_digits bits acc [] = some acc
parse_hex_digits bits acc (c ∷ s) =
    let rest : ℕ → Option ℕ = λ n. parse_hex_digits bits n s in
    shift_in bits acc rest (digit_value c)

abbrev pub after_sign : ℕ → List ℕ → Option ℕ
after_sign bits [] = none
after_sign bits (c ∷ s) = parse_hex_digits bits 0 (c ∷ s)

-- A sign `+` before the digits is taken.
unfoldable pub parse_hex : ℕ → List ℕ → Option ℕ
unfolding parse_hex_digits
parse_hex bits [] = none
parse_hex bits (c ∷ s) = if c == 43 then after_sign bits s else parse_hex_digits bits 0 (c ∷ s)

digit_value-hex_digit : (d : ℕ) → d < 16 → digit_value (hex_digit d) ≡ some d
unfolding digit_value hex_digit
digit_value-hex_digit d h = ground arith

parse_hex_digits-append :
    (bits acc m : ℕ) (xs ys : List ℕ)
    → parse_hex_digits bits acc xs ≡ some m
    → parse_hex_digits bits acc (xs ++ ys) ≡ parse_hex_digits bits m ys
unfolding parse_hex_digits
parse_hex_digits-append bits acc m [] ys e = let q : acc ≡ m = cc in rw q refl
parse_hex_digits-append bits acc m (c ∷ xs) ys e =
    by_digit (digit_value c) e (λ k g. parse_hex_digits-append bits k m xs ys g)
  where
    Goes_on : ℕ → Type 0
    Goes_on k =
        parse_hex_digits bits k xs ≡ some m
        → parse_hex_digits bits k (xs ++ ys) ≡ parse_hex_digits bits m ys

    by_test :
        (b : Bool) (d : ℕ)
        → ((k : ℕ) → Goes_on k)
        → (if b then parse_hex_digits bits (acc * 16 + d) xs else none) ≡ some m
        → (if b then parse_hex_digits bits (acc * 16 + d) (xs ++ ys) else none)
          ≡ parse_hex_digits bits m ys
    by_test true d g e = g (acc * 16 + d) e
    by_test false d h e = absurd (let g : none ≡ some m = e in cc g)

    by_digit :
        (o : Option ℕ)
        → shift_in bits acc (λ n. parse_hex_digits bits n xs) o ≡ some m
        → ((k : ℕ) → Goes_on k)
        → shift_in bits acc (λ n. parse_hex_digits bits n (xs ++ ys)) o ≡ parse_hex_digits bits m ys
    by_digit none e h = absurd (let g : none ≡ some m = e in cc g)
    by_digit (some d) e h = by_test (ltb (acc * 16 + d) (2 ^ bits)) d h e

-- The low digits of a number that has no more are read as the number, if the type has it.
pub parse_hex_digits-low_digits :
    (bits w n : ℕ) → n < 16 ^ w → n < 2 ^ bits → parse_hex_digits bits 0 (low_digits w n) ≡ some n
unfolding low_digits parse_hex_digits
parse_hex_digits-low_digits bits zero n h k = let q : 0 ≡ n = omega arith in ap some q
parse_hex_digits-low_digits bits (suc w) n h k =
    parse_hex_digits-append bits 0 (n / 16) (low_digits w (n / 16)) (hex_digit (n % 16) ∷ [])
      (parse_hex_digits-low_digits bits w (n / 16) (omega (arith, pow-suc 16 w)) (omega arith))
    ∙ last_digit
  where
    value : n / 16 * 16 + n % 16 ≡ n
    value = omega arith

    within : ltb n (2 ^ bits) ≡ true
    within = ground arith

    last_digit : parse_hex_digits bits (n / 16) (hex_digit (n % 16) ∷ []) ≡ some n
    last_digit = rw (digit_value-hex_digit (n % 16) (omega arith), value, within) refl

hex_length_bound : (fuel w n : ℕ) → n < 16 ^ suc w → hex_length fuel n ≤ suc w
unfolding hex_length
hex_length_bound zero w n h = omega arith
hex_length_bound (suc fuel) w n h = elim (Bool-cases (ltb n 16)) [
  | inl e ↦ rw e (omega arith)
  | inr e ↦ rw e (longer w e h (λ v. hex_length_bound fuel v (n / 16)))
]
  where
    longer :
        (w : ℕ)
        → ltb n 16 ≡ false
        → n < 16 ^ suc w
        → ((v : ℕ) → n / 16 < 16 ^ suc v → hex_length fuel (n / 16) ≤ suc v)
        → hex_length fuel (n / 16) + 1 ≤ suc w
    longer zero e h g = absurd (ground arith)
    longer (suc w) e h g =
        let k : hex_length fuel (n / 16) ≤ suc w = g w (omega (arith, pow-suc 16 (suc w))) in
        omega arith

-- A number that the width has room for is written with just so many digits.
pub format_hex_fits : (w n : ℕ) → n < 16 ^ suc w → format_hex (suc w) n ≡ low_digits (suc w) n
unfolding format_hex
format_hex_fits w n h =
    let k = hex_length_bound 16 w n h in
    let e : max (suc w) (hex_length 16 n) ≡ suc w = omega arith in rw e refl
