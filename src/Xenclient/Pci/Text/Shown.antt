-- ===== src/Xenclient/Pci/Text/Shown.antt =====
-- What the patterns match of a text that was shown.
use krata.Prelude.{
  ℕ, zero, suc, ◌^◌, ◌%◌, ◌/◌, ◌<◌, ◌≡◌, refl, ap, subst, ◌∙◌, true, false, none, some, List, [],
  ◌∷◌, ◌++◌, length, length-append, All, All-append, All-map, ◌==◌, arith,
}
use krata.Prelude.Text.Hex.{
  hex_digit, low_digits, parse_hex, parse_hex_digits, parse_hex_digits-low_digits,
}
use krata.Xenclient.Pci.Text.Match.{
  Item, is_hex, take_hex, first_group, with_group, match_items, hex, char, any,
}

pub is_hex-hex_digit : (d : ℕ) → d < 16 → is_hex (hex_digit d) ≡ true
unfolding hex_digit
is_hex-hex_digit d h = ground arith

pub length-low_digits : (w n : ℕ) → length (low_digits w n) ≡ w
unfolding low_digits
length-low_digits zero n = refl
length-low_digits (suc w) n =
    length-append (low_digits w (n / 16)) (hex_digit (n % 16) ∷ [])
    ∙ omega (arith, length-low_digits w (n / 16))

pub low_digits-hex : (w n : ℕ) → All (λ c. is_hex c ≡ true) (low_digits w n)
unfolding low_digits
low_digits-hex zero n = tt
low_digits-hex (suc w) n =
    All-append (λ c. is_hex c ≡ true) (low_digits w (n / 16)) (hex_digit (n % 16) ∷ [])
      (low_digits-hex w (n / 16)) (is_hex-hex_digit (n % 16) (omega arith), tt)

pub take_hex-append :
    (xs s : List ℕ) → All (λ c. is_hex c ≡ true) xs → take_hex (length xs) (xs ++ s) ≡ some (xs, s)
unfolding take_hex
take_hex-append [] s h = refl
take_hex-append (c ∷ xs) s h = rw (h.0, take_hex-append xs s h.1) refl

-- The digits of a number are the group that they are shown for.
pub match_number :
    (w n : ℕ) (items : List Item) (s : List ℕ)
    → match_items (hex w ∷ items) (low_digits w n ++ s)
      ≡ first_group (low_digits w n) (match_items items s)
unfolding match_items
match_number w n items s = ap (with_group (match_items items)) (
    subst (λ k. take_hex k (low_digits w n ++ s) ≡ some (low_digits w n, s)) (length-low_digits w n)
      (take_hex-append (low_digits w n) s (low_digits-hex w n)))

pub match_char :
    (k : ℕ) (items : List Item) (s : List ℕ)
    → match_items (char k ∷ items) (k ∷ s) ≡ match_items items s
unfolding match_items
match_char k items s = let e : (k == k) ≡ true = ground arith in rw e refl

pub match_point :
    (items : List Item) (s : List ℕ) → match_items (any ∷ items) (46 ∷ s) ≡ match_items items s
unfolding match_items
match_point items s = refl

pub match_end : match_items [] [] ≡ some []
unfolding match_items
match_end = refl

pub match_more : (c : ℕ) (s : List ℕ) → match_items [] (c ∷ s) ≡ none
unfolding match_items
match_more c s = refl

-- The text of a bus, a device and a function, and what comes behind.
abbrev pub slot_text : (bus device function : ℕ) → List ℕ → List ℕ
slot_text bus device function s =
    low_digits 2 bus ++ (58 ∷ (low_digits 2 device ++ (46 ∷ (low_digits 1 function ++ s))))

pub match_slot :
    (bus device function : ℕ) (items : List Item) (s : List ℕ)
    → match_items (hex 2 ∷ char 58 ∷ hex 2 ∷ any ∷ hex 1 ∷ items) (slot_text bus device function s)
      ≡ first_group (low_digits 2 bus) (
          first_group
            (low_digits 2 device)
            (first_group (low_digits 1 function) (match_items items s)))
match_slot bus device function items s =
    rw (match_number, match_char, match_number, match_point, match_number) refl

-- Digits that were shown are read as their number.
pub parse_shown :
    (bits w n : ℕ) → n < 16 ^ suc w → n < 2 ^ bits → parse_hex bits (low_digits (suc w) n) ≡ some n
unfolding parse_hex
parse_shown bits w n h k =
    by_text (low_digits (suc w) n) (low_digits-hex (suc w) n) (length-low_digits (suc w) n)
    ∙ parse_hex_digits-low_digits bits (suc w) n h k
  where
    by_text :
        (xs : List ℕ)
        → All (λ c. is_hex c ≡ true) xs
        → length xs ≡ suc w
        → parse_hex bits xs ≡ parse_hex_digits bits 0 xs
    by_text [] a l = absurd (omega arith)
    by_text (c ∷ xs) a l = let e : (c == 43) ≡ false = no_sign c a.0 in rw e refl
      where
        no_sign : (c : ℕ) → is_hex c ≡ true → (c == 43) ≡ false
        no_sign c h = ground arith

pub match_full :
    (domain bus device function : ℕ) (items : List Item) (s : List ℕ)
    → match_items
        (hex 4 ∷ char 58 ∷ hex 2 ∷ char 58 ∷ hex 2 ∷ any ∷ hex 1 ∷ items)
        (low_digits 4 domain ++ (58 ∷ slot_text bus device function s))
      ≡ first_group (low_digits 4 domain) (
          first_group (low_digits 2 bus) (
            first_group
              (low_digits 2 device)
              (first_group (low_digits 1 function) (match_items items s))))
match_full domain bus device function items s =
    rw (match_number 4 domain, match_char, match_slot bus device function items s) refl

-- A bus of two digits is not a domain of four.
pub match_no_domain :
    (bus device function : ℕ) (items : List Item) (s : List ℕ)
    → match_items (hex 4 ∷ items) (slot_text bus device function s) ≡ none
unfolding match_items low_digits
match_no_domain bus device function items s =
    rw (is_hex-hex_digit (bus / 16 % 16) (omega arith), is_hex-hex_digit (bus % 16) (omega arith))
      refl

-- A text of ASCII characters.
unfoldable pub Ascii : List ℕ → Type 0
Ascii = All (λ c. c < 128)

pub low_digits-Ascii : (w n : ℕ) → Ascii (low_digits w n)
unfolding Ascii
low_digits-Ascii w n = All-map (low_digits w n) (λ c h. small c h) (low_digits-hex w n)
  where
    small : (c : ℕ) → is_hex c ≡ true → c < 128
    small c h = ground arith

pub append-Ascii : (xs ys : List ℕ) → Ascii xs → Ascii ys → Ascii (xs ++ ys)
unfolding Ascii
append-Ascii xs ys h k = All-append (λ c. c < 128) xs ys h k

pub slot_text-Ascii :
    (bus device function : ℕ) (s : List ℕ) → Ascii s → Ascii (slot_text bus device function s)
unfolding Ascii
slot_text-Ascii bus device function s h =
    append-Ascii (low_digits 2 bus) _ (low_digits-Ascii 2 bus) (
      omega arith,
      append-Ascii (low_digits 2 device) _ (low_digits-Ascii 2 device)
          (omega arith, append-Ascii (low_digits 1 function) s (low_digits-Ascii 1 function) h),
    )
