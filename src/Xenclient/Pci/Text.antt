-- ===== src/Xenclient/Pci/Text.antt =====
-- crates/xen/xenclient/src/pci.rs: the address of a PCI device as text, `Display` and `FromStr` of `PciBdf`. The regular
-- expressions are those of the regex crate, which gives the groups of a match.
pub mod Match
pub mod Shown
pub mod Roundtrip
use krata.Prelude.{
  ℕ, zero, suc, Bool, true, false, ◌&&◌, ◌||◌, Option, none, some, List, [], ◌∷◌, ◌++◌, get_elem?,
  ltb, leb, ◌==◌, if◌then◌else◌, Outcome, ok, err, panic, ok_or,
}
use krata.Prelude.Text.{bytes}
use krata.Prelude.Text.Hex.{format_hex, parse_hex}
use krata.Xenclient.Tx.{TxError, generic_error, parse_int_error, invalid_pci_bdf_string}
use krata.Xenclient.Pci.{PciBdf}

abbrev pub pci_bdf_regex : List ℕ
pci_bdf_regex = bytes "^([0-9a-f]{4}):([0-9a-f]{2}):([0-9a-f]{2}).([0-9a-f]{1})$"

abbrev pub pci_bdf_short_regex : List ℕ
pci_bdf_short_regex = bytes "^([0-9a-f]{2}):([0-9a-f]{2}).([0-9a-f]{1})$"

abbrev pub pci_bdf_vdefn_regex : List ℕ
pci_bdf_vdefn_regex =
    bytes "^([0-9a-f]{4}):([0-9a-f]{2}):([0-9a-f]{2}).([0-9a-f]{1})@([0-9a-f]{2})$"

abbrev pub and_then :
    {A B : Type 0} → Outcome TxError A → (A → Outcome TxError B) → Outcome TxError B
and_then (ok a) f = f a
and_then (err e) f = err e
and_then panic f = panic

abbrev pub show_vdefn : Option ℕ → List ℕ
show_vdefn none = []
show_vdefn (some vdefn) = 64 ∷ format_hex 2 vdefn

abbrev pub show_slot : PciBdf → List ℕ
show_slot bdf =
    format_hex 2 bdf.bus ++ (58 ∷ format_hex 2 bdf.device ++ (46 ∷ format_hex 1 bdf.function))

-- `Display`. Without a domain, the virtual function is not shown.
abbrev pub show_from : Option ℕ → PciBdf → List ℕ
show_from none bdf = show_slot bdf
show_from (some domain) bdf = format_hex 4 domain ++ (58 ∷ show_slot bdf ++ show_vdefn bdf.vdefn)

unfoldable pub to_string : PciBdf → List ℕ
unfolding format_hex
to_string bdf = show_from bdf.domain bdf

-- A group of a match, as a number of so many bits.
abbrev pub parsed : Option ℕ → Outcome TxError ℕ
parsed none = err parse_int_error
parsed (some n) = ok n

abbrev pub number : (bits i : ℕ) → List (List ℕ) → Outcome TxError ℕ
number bits i groups =
    and_then (ok_or (get_elem? groups i) (generic_error "capture group did not exist"))
      (λ group. parsed (parse_hex bits group))

-- The bus, the device and the function from the `i`th group on.
abbrev pub slot_of : (i : ℕ) → List (List ℕ) → Option ℕ → Option ℕ → Outcome TxError PciBdf
slot_of i groups domain vdefn = and_then (number 16 i groups) (λ bus.
    and_then (number 16 (suc i) groups) (λ device.
      and_then (number 16 (suc (suc i)) groups) (λ function. ok (record {
        domain = domain;
        bus = bus;
        device = device;
        function = function;
        vdefn = vdefn;
      }))))

abbrev pub full_of : List (List ℕ) → Outcome TxError PciBdf
full_of groups = and_then (number 32 0 groups) (λ domain. slot_of 1 groups (some domain) none)

abbrev pub vdefn_of : List (List ℕ) → Outcome TxError PciBdf
vdefn_of groups = and_then (number 32 0 groups) (λ domain.
    and_then (slot_of 1 groups (some domain) none)
      (λ bdf. and_then (number 16 4 groups) (λ vdefn. ok (record bdf { vdefn = some vdefn }))))

module _ (captures : List ℕ → List ℕ → Option (List (List ℕ))) where
  abbrev pub short_or : Option (List (List ℕ)) → Outcome TxError PciBdf
  short_or none = err invalid_pci_bdf_string
  short_or (some groups) = slot_of 0 groups none none

  abbrev pub vdefn_or : Option (List (List ℕ)) → Outcome TxError PciBdf → Outcome TxError PciBdf
  vdefn_or none rest = rest
  vdefn_or (some groups) rest = vdefn_of groups

  abbrev pub full_or : Option (List (List ℕ)) → Outcome TxError PciBdf → Outcome TxError PciBdf
  full_or none rest = rest
  full_or (some groups) rest = full_of groups

  unfoldable pub from_str : List ℕ → Outcome TxError PciBdf
  unfolding parse_hex
  from_str s =
      full_or (captures pci_bdf_regex s)
        (vdefn_or (captures pci_bdf_vdefn_regex s) (short_or (captures pci_bdf_short_regex s)))
