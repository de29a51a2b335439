-- ===== src/Xenclient/Pci/Text/Roundtrip.antt =====
-- crates/xen/xenclient/src/pci.rs: the address that is shown is the address that is read.
use krata.Prelude.{
  ℕ, ◌<◌, ◌≡◌, refl, Option, none, some, List, [], ◌∷◌, ◌++◌, append_assoc, append-nil, ok, arith,
}
use krata.Prelude.Text.Hex.{low_digits, format_hex_fits}
use krata.Xenclient.Pci.{PciBdf}
use krata.Xenclient.Pci.Text.{to_string, from_str}
use krata.Xenclient.Pci.Text.Match.{IsRegex}
use krata.Xenclient.Pci.Text.Shown.{
  match_number, match_char, match_end, match_more, slot_text, match_slot, parse_shown, match_full,
  match_no_domain, Ascii, low_digits-Ascii, append-Ascii, slot_text-Ascii,
}

-- The domain fits in four digits; the virtual function is shown only with a domain, and fits in two.
abbrev pub ShownFields : Option ℕ → Option ℕ → Type 0
ShownFields none none = Unit {0}
ShownFields none (some vdefn) = ⊥
ShownFields (some domain) none = domain < 65536
ShownFields (some domain) (some vdefn) = (domain < 65536) × (vdefn < 256)

-- Every field of the address fits in the digits that it is shown with.
pub record IsShown (bdf : PciBdf) : Type 0 where
  pub bus : bdf.bus < 256
  pub device : bdf.device < 256
  pub function : bdf.function < 16
  pub fields : ShownFields bdf.domain bdf.vdefn

module _ (captures : List ℕ → List ℕ → Option (List (List ℕ))) (r : IsRegex captures)
    (bus device function : ℕ) (b : bus < 256) (v : device < 256) (f : function < 16) where
  abbrev bdf_of : Option ℕ → Option ℕ → PciBdf
  bdf_of domain vdefn = record {
    domain = domain;
    bus = bus;
    device = device;
    function = function;
    vdefn = vdefn;
  }

  short_text : List ℕ
  short_text = slot_text bus device function []

  shown_short : to_string (bdf_of none none) ≡ short_text
  unfolding to_string short_text
  shown_short =
      rw
        (
          format_hex_fits 1 bus b,
          format_hex_fits 1 device v,
          format_hex_fits 0 function f,
          append-nil,
        )
        refl

  short_lem : from_str captures (to_string (bdf_of none none)) ≡ ok (bdf_of none none)
  unfolding from_str short_text Ascii
  short_lem =
      let a : Ascii short_text = slot_text-Ascii bus device function [] tt in
      rw
        (
          shown_short,
          r.full short_text a,
          r.vdefn short_text a,
          r.short short_text a,
          match_no_domain,
          match_no_domain,
          match_slot,
          match_end,
          parse_shown 16 1 bus b (omega arith),
          parse_shown 16 1 device v (omega arith),
          parse_shown 16 0 function f (omega arith),
        )
        refl

  module _ (domain : ℕ) (d : domain < 65536) where
    full_text : List ℕ → List ℕ
    full_text s = low_digits 4 domain ++ (58 ∷ slot_text bus device function s)

    full_text-Ascii : (s : List ℕ) → Ascii s → Ascii (full_text s)
    unfolding full_text Ascii
    full_text-Ascii s h =
        append-Ascii (low_digits 4 domain) _ (low_digits-Ascii 4 domain)
          (omega arith, slot_text-Ascii bus device function s h)

    shown_full : to_string (bdf_of (some domain) none) ≡ full_text []
    unfolding to_string full_text
    shown_full =
        rw
          (
            format_hex_fits 3 domain d,
            format_hex_fits 1 bus b,
            format_hex_fits 1 device v,
            format_hex_fits 0 function f,
            append-nil,
          )
          refl

    full_lem :
        from_str captures (to_string (bdf_of (some domain) none)) ≡ ok (bdf_of (some domain) none)
    unfolding from_str full_text Ascii
    full_lem =
        rw
          (
            shown_full,
            r.full (full_text []) (full_text-Ascii [] tt),
            match_full,
            match_end,
            parse_shown 32 3 domain d (omega arith),
            parse_shown 16 1 bus b (omega arith),
            parse_shown 16 1 device v (omega arith),
            parse_shown 16 0 function f (omega arith),
          )
          refl

    module _ (vdefn : ℕ) (n : vdefn < 256) where
      behind : List ℕ
      behind = 64 ∷ (low_digits 2 vdefn ++ [])

      shown_vdefn : to_string (bdf_of (some domain) (some vdefn)) ≡ full_text behind
      unfolding to_string full_text behind
      shown_vdefn =
          rw
            (
              format_hex_fits 3 domain d,
              format_hex_fits 1 bus b,
              format_hex_fits 1 device v,
              format_hex_fits 0 function f,
              format_hex_fits 1 vdefn n,
              append-nil,
            )
            (joined (low_digits 4 domain) (low_digits 2 bus) (low_digits 2 device)
              (low_digits 1 function) (64 ∷ low_digits 2 vdefn))
        where
          joined :
              (p q s t e : List ℕ)
              → p ++ (58 ∷ (q ++ (58 ∷ (s ++ (46 ∷ t)))) ++ e)
                ≡ p ++ (58 ∷ (q ++ (58 ∷ (s ++ (46 ∷ (t ++ e))))))
          joined p q s t e = simp append_assoc

      vdefn_lem :
          from_str captures (to_string (bdf_of (some domain) (some vdefn)))
          ≡ ok (bdf_of (some domain) (some vdefn))
      unfolding from_str full_text Ascii behind
      vdefn_lem =
          let a : Ascii (full_text behind) =
            full_text-Ascii behind
              (omega arith, append-Ascii (low_digits 2 vdefn) [] (low_digits-Ascii 2 vdefn) tt) in
          rw
            (
              shown_vdefn,
              r.full (full_text behind) a,
              r.vdefn (full_text behind) a,
              match_full,
              match_more,
              match_full,
              match_char,
              match_number 2 vdefn,
              match_end,
              parse_shown 32 3 domain d (omega arith),
              parse_shown 16 1 bus b (omega arith),
              parse_shown 16 1 device v (omega arith),
              parse_shown 16 0 function f (omega arith),
              parse_shown 16 1 vdefn n (omega arith),
            )
            refl

-- When the regex crate matches the three patterns as it documents, the text of an address whose fields fit in the digits
-- that they are shown with, and which has a virtual function only with a domain, is read as that address.
pub from_str-to_string :
    (captures : List ℕ → List ℕ → Option (List (List ℕ))) (bdf : PciBdf)
    → IsRegex captures
    → IsShown bdf
    → from_str captures (to_string bdf) ≡ ok bdf
from_str-to_string captures bdf r i = by_fields bdf.domain bdf.vdefn i.fields
  where
    by_fields :
        (domain vdefn : Option ℕ)
        → ShownFields domain vdefn
        → from_str captures (
            to_string (
              bdf_of captures r bdf.bus bdf.device bdf.function i.bus i.device i.function domain
                vdefn))
          ≡ ok (
              bdf_of captures r bdf.bus bdf.device bdf.function i.bus i.device i.function domain
                vdefn)
    by_fields none none h =
        short_lem captures r bdf.bus bdf.device bdf.function i.bus i.device i.function
    by_fields none (some n) h = absurd h
    by_fields (some d) none h =
        full_lem captures r bdf.bus bdf.device bdf.function i.bus i.device i.function d h
    by_fields (some d) (some n) h =
        vdefn_lem captures r bdf.bus bdf.device bdf.function i.bus i.device i.function d h.0 n h.1
