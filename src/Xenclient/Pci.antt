-- ===== src/Xenclient/Pci.antt =====
-- crates/xen/xenclient/src/pci.rs: the address of a PCI device as a word.
pub mod Text
pub mod Backend
mod Tests
use krata.Prelude.{
  ℕ, ◌+◌, ◌*◌, ◌%◌, ◌^◌, ◌<◌, ◌≡◌, sym, ap, ◌∙◌, Option, none, some, arith, bit_and, bit_or,
}
use krata.Prelude.Bits.{bit_and_low, high-bit_or-low}

pub record PciBdf : Type 0 where
  pub domain : Option ℕ
  pub bus : ℕ
  pub device : ℕ
  pub function : ℕ
  pub vdefn : Option ℕ

abbrev pub or_zero : Option ℕ → ℕ
or_zero none = 0
or_zero (some n) = n

unfoldable pub with_domain : PciBdf → ℕ → PciBdf
with_domain bdf domain = record bdf { domain = some domain }

unfoldable pub encode : PciBdf → ℕ
encode bdf =
    let domain = or_zero bdf.domain * 2 ^ 16 % 2 ^ 32 in
    let bus = bit_and bdf.bus 0xff * 2 ^ 8 % 2 ^ 16 in
    let device = bit_and bdf.device 0x1f * 2 ^ 3 % 2 ^ 16 in
    bit_or (bit_or (bit_or domain bus) device) (bit_and bdf.function 0x7)

-- The word has the low 16 bits of the domain, the low 8 of the bus, 5 of the device and 3 of the function, one
-- behind the other.
pub encode_lem :
    (bdf : PciBdf)
    → encode bdf
      ≡ or_zero bdf.domain % 65536 * 65536
        + bdf.bus % 256 * 256
        + bdf.device % 32 * 8
        + bdf.function % 8
unfolding encode
encode_lem bdf =
    rw (bus, device, function, domain_field, bus_field, device_field, with_bus, with_device)
      with_function
  where
    D : ℕ
    D = or_zero bdf.domain % 65536

    B : ℕ
    B = bdf.bus % 256

    V : ℕ
    V = bdf.device % 32

    F : ℕ
    F = bdf.function % 8

    bus : bit_and bdf.bus 255 ≡ B
    bus = bit_and_low 8 bdf.bus

    device : bit_and bdf.device 31 ≡ V
    device = bit_and_low 5 bdf.device

    function : bit_and bdf.function 7 ≡ F
    function = bit_and_low 3 bdf.function

    domain_field : or_zero bdf.domain * 65536 % 4294967296 ≡ D * 65536
    domain_field = omega arith

    bus_field : B * 256 % 65536 ≡ B * 256
    bus_field = omega arith

    device_field : V * 8 % 65536 ≡ V * 8
    device_field = omega arith

    with_bus : bit_or (D * 65536) (B * 256) ≡ D * 65536 + B * 256
    with_bus = high-bit_or-low 16 D (B * 256) (omega arith)

    with_device : bit_or (D * 65536 + B * 256) (V * 8) ≡ D * 65536 + B * 256 + V * 8
    with_device =
        let e : D * 65536 + B * 256 ≡ (D * 256 + B) * 256 = omega arith in
        ap (λ t. bit_or t (V * 8)) e
        ∙ high-bit_or-low 8 (D * 256 + B) (V * 8) (omega arith)
        ∙ omega arith

    with_function : bit_or (D * 65536 + B * 256 + V * 8) F ≡ D * 65536 + B * 256 + V * 8 + F
    with_function =
        let e : D * 65536 + B * 256 + V * 8 ≡ (D * 8192 + B * 32 + V) * 8 = omega arith in
        ap (λ t. bit_or t F) e
        ∙ high-bit_or-low 3 (D * 8192 + B * 32 + V) F (omega arith)
        ∙ omega arith

-- The fields are in their ranges.
pub record IsAddress (bdf : PciBdf) : Type 0 where
  pub domain : or_zero bdf.domain < 65536
  pub bus : bdf.bus < 256
  pub device : bdf.device < 32
  pub function : bdf.function < 8

-- Two addresses with fields in their ranges and the same word have the same bus, device and
-- function, and the same domain, where none is 0.
pub encode-injective :
    (a b : PciBdf)
    → IsAddress a
    → IsAddress b
    → encode a ≡ encode b
    → (or_zero a.domain ≡ or_zero b.domain)
      × (a.bus ≡ b.bus)
      × (a.device ≡ b.device)
      × (a.function ≡ b.function)
encode-injective a b p q e =
    let h = sym (encode_lem a) ∙ e ∙ encode_lem b in
    let pd = p.domain in
    let pb = p.bus in
    let pv = p.device in
    let pf = p.function in
    let qd = q.domain in
    let qb = q.bus in
    let qv = q.device in let qf = q.function in (omega arith, omega arith, omega arith, omega arith)
