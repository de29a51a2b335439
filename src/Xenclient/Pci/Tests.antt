-- ===== src/Xenclient/Pci/Tests.antt =====
-- The theorems on PCI devices at concrete addresses and resources.
use krata.Prelude.{
  ℕ, ◌*◌, ◌<◌, ◌≡◌, refl, Option, none, some, List, [], ◌∷◌, arith, ok, if◌then◌else◌,
}
use krata.Prelude.Text.{bytes, bytes_eq}
use krata.Prelude.Text.Hex.{parse_hex}
use krata.Xenclient.Pci.{PciBdf}
use krata.Xenclient.Pci.Text.{pci_bdf_regex, pci_bdf_vdefn_regex, to_string, from_str}
use krata.Xenclient.Pci.Text.Match.{
  IsRegex, take_hex, match_items, full_items, vdefn_items, slot_items,
}
use krata.Xenclient.Pci.Text.Roundtrip.{IsShown, from_str-to_string}
use krata.Xenclient.Pci.Backend.{lines, parse_resources, size}
use krata.Xenclient.Tx.PciRoot.{frames_of_size}
use krata.Xenclient.Tx.PciRoot.Granted.{frames_of_size_short}

abbrev matched : List ℕ → List ℕ → Option (List (List ℕ))
matched pattern s =
    if bytes_eq pattern pci_bdf_regex
    then match_items full_items s
    else if bytes_eq pattern pci_bdf_vdefn_regex
    then match_items vdefn_items s
    else match_items slot_items s

matched-IsRegex : IsRegex matched
matched-IsRegex = record { full = λ s a. refl; vdefn = λ s a. refl; short = λ s a. refl }

-- 0000:3a:1f.3@05
abbrev sound_card : PciBdf
sound_card = record { domain = some 0; bus = 0x3a; device = 0x1f; function = 3; vdefn = some 5 }

shown : to_string sound_card ≡ bytes "0000:3a:1f.3@05"
unfolding to_string
shown = refl

sound_card-IsShown : IsShown sound_card
sound_card-IsShown = record {
  bus = omega arith;
  device = omega arith;
  function = omega arith;
  fields = (omega arith, omega arith);
}

from_str-to_string_example : from_str matched (to_string sound_card) ≡ ok sound_card
from_str-to_string_example =
    from_str-to_string matched sound_card matched-IsRegex sound_card-IsShown

-- The point of the patterns is not escaped.
other_separator :
    from_str matched (bytes "3a:1f/3")
    ≡ ok (record { domain = none; bus = 0x3a; device = 0x1f; function = 3; vdefn = none })
unfolding from_str match_items take_hex
other_separator = refl

-- Only a carriage return before a line feed belongs to the end of the line.
two_lines : lines (97 ∷ 13 ∷ 13 ∷ 10 ∷ 98 ∷ 13 ∷ []) ≡ (97 ∷ 13 ∷ []) ∷ (98 ∷ 13 ∷ []) ∷ []
unfolding lines
two_lines = refl

-- A memory resource of 256 bytes, and one that does not exist.
one_resource :
    parse_resources
      (lines (bytes "0x00000000f7ffc000 0x00000000f7ffc0ff 0x0000000000040200\n0x0 0x0 0x0\n"))
    ≡ record { start = 0xf7ffc000; end = 0xf7ffc0ff; flags = 0x40200 } ∷ []
unfolding parse_resources lines parse_hex
one_resource = refl

not_granted :
    frames_of_size (size (record { start = 0xf7ffc000; end = 0xf7ffc0ff; flags = 0x40200 })) ≡ 0
unfolding frames_of_size size
not_granted = refl

frames_of_size_short_example : frames_of_size 256 * 4096 < 256
frames_of_size_short_example = frames_of_size_short 256 (omega arith) (omega arith) (omega arith)
