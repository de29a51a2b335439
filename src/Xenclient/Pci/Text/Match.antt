-- ===== src/Xenclient/Pci/Text/Match.antt =====
-- crates/xen/xenclient/src/pci.rs: what the three patterns match, by the documentation of the regex crate.
use krata.Prelude.{
  ℕ, zero, suc, ◌<◌, ◌≡◌, Bool, ◌&&◌, ◌||◌, Option, none, some, List, [], ◌∷◌, All, ltb, leb, ◌==◌,
  if◌then◌else◌,
}
use krata.Xenclient.Pci.Text.{pci_bdf_regex, pci_bdf_short_regex, pci_bdf_vdefn_regex}

-- A part of these patterns: a group of so many digits `[0-9a-f]`, a character that stands for itself, or the point, which
-- matches every character but the end of a line.
pub data Item : Type 0 where
  hex : ℕ → Item
  char : ℕ → Item
  any : Item

abbrev pub is_hex : ℕ → Bool
is_hex c = (leb 48 c && ltb c 58) || (leb 97 c && ltb c 103)

abbrev pub with_digit : ℕ → Option (List ℕ × List ℕ) → Option (List ℕ × List ℕ)
with_digit c none = none
with_digit c (some (group, rest)) = some (c ∷ group, rest)

-- So many digits, and what comes behind them.
unfoldable pub take_hex : ℕ → List ℕ → Option (List ℕ × List ℕ)
take_hex zero s = some ([], s)
take_hex (suc n) [] = none
take_hex (suc n) (c ∷ s) = let on = take_hex n s in if is_hex c then with_digit c on else none

abbrev pub first_group : List ℕ → Option (List (List ℕ)) → Option (List (List ℕ))
first_group group none = none
first_group group (some groups) = some (group ∷ groups)

abbrev pub with_group :
    (List ℕ → Option (List (List ℕ))) → Option (List ℕ × List ℕ) → Option (List (List ℕ))
with_group rest none = none
with_group rest (some (group, s)) = first_group group (rest s)

-- The groups of a text that the items match from its beginning to its end.
unfoldable pub match_items : List Item → List ℕ → Option (List (List ℕ))
unfolding take_hex
match_items [] [] = some []
match_items [] (c ∷ s) = none
match_items (hex n ∷ items) s = let rest = match_items items in with_group rest (take_hex n s)
match_items (char k ∷ items) [] = none
match_items (char k ∷ items) (c ∷ s) = let on = match_items items s in if c == k then on else none
match_items (any ∷ items) [] = none
match_items (any ∷ items) (c ∷ s) = let on = match_items items s in if c == 10 then none else on

abbrev pub slot_items : List Item
slot_items = hex 2 ∷ char 58 ∷ hex 2 ∷ any ∷ hex 1 ∷ []

abbrev pub full_items : List Item
full_items = hex 4 ∷ char 58 ∷ slot_items

abbrev pub vdefn_items : List Item
vdefn_items = hex 4 ∷ char 58 ∷ hex 2 ∷ char 58 ∷ hex 2 ∷ any ∷ hex 1 ∷ char 64 ∷ hex 2 ∷ []

-- What the regex crate documents for the three patterns, on texts of ASCII characters.
pub record IsRegex (captures : List ℕ → List ℕ → Option (List (List ℕ))) : Type 0 where
  pub full :
      (s : List ℕ) → All (λ c. c < 128) s → captures pci_bdf_regex s ≡ match_items full_items s
  pub vdefn :
      (s : List ℕ)
      → All (λ c. c < 128) s
      → captures pci_bdf_vdefn_regex s ≡ match_items vdefn_items s
  pub short :
      (s : List ℕ)
      → All (λ c. c < 128) s
      → captures pci_bdf_short_regex s ≡ match_items slot_items s
