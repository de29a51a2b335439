-- ===== src/Xenclient/Pci/Backend.antt =====
-- crates/xen/xenclient/src/pci.rs: `XenPciBackend`, which reads and writes the files of the pciback driver, and the
-- resources of a device. The file system is a parameter.
use krata.Prelude.{
  ℕ, ◌+◌, ◌-◌, ◌%◌, ◌^◌, bit_and, Bool, true, false, not, ◌&&◌, Option, none, some, List, [], ◌∷◌,
  ◌++◌, ltb, ◌==◌, if◌then◌else◌, Outcome, ok, err, panic,
}
use krata.Prelude.Effect.{Action, ◌>>=◌, pure}
use krata.Prelude.Text.{bytes}
use krata.Prelude.Text.Decimal.{parse_u32}
use krata.Prelude.Text.Hex.{parse_hex}
use krata.Xenclient.Tx.{TxError}
use krata.Xenclient.Pci.{PciBdf}
use krata.Xenclient.Pci.Text.{to_string, from_str}

-- `tokio::fs`; a failure of a call is an `io::Error`. `trim` is that of `str`, which knows the white space of Unicode.
pub record Files : Type 1 where
  pub W : Type 0
  pub try_exists : List ℕ → Action W TxError Bool
  pub exists : List ℕ → W → Bool
  pub read_to_string : List ℕ → Action W TxError (List ℕ)
  pub write : List ℕ → List ℕ → Action W TxError (Unit {0})
  pub read_dir : List ℕ → Action W TxError (List (List ℕ))
  pub trim : List ℕ → List ℕ
  pub captures : List ℕ → List ℕ → Option (List (List ℕ))

abbrev pub pciback_sysfs_path : List ℕ
pciback_sysfs_path = bytes "/sys/bus/pci/drivers/pciback"

-- `path.push`.
abbrev pub push : List ℕ → List ℕ → List ℕ
push path name = path ++ 47 ∷ name

pub record PciMemoryResource : Type 0 where
  pub start : ℕ
  pub end : ℕ
  pub flags : ℕ

unfoldable pub is_bar_io : PciMemoryResource → Bool
is_bar_io resource = not (bit_and resource.flags 1 == 0)

unfoldable pub size : PciMemoryResource → ℕ
size resource = ((resource.end + 2 ^ 64 - resource.start) % 2 ^ 64 + 1) % 2 ^ 64

abbrev pub onto_first : ℕ → List (List ℕ) → List (List ℕ)
onto_first c [] = (c ∷ []) ∷ []
onto_first c (part ∷ parts) = (c ∷ part) ∷ parts

-- `split`, by one character.
unfoldable pub split : ℕ → List ℕ → List (List ℕ)
split k [] = [] ∷ []
split k (c ∷ s) = let rest = split k s in if c == k then [] ∷ rest else onto_first c rest

-- A line without the carriage return at its end.
unfoldable pub strip_return : List ℕ → List ℕ
strip_return [] = []
strip_return (c ∷ []) = if c == 13 then [] else c ∷ []
strip_return (c ∷ (d ∷ s)) = c ∷ strip_return (d ∷ s)

-- The lines before the last, and what is behind the last line feed as it is, if it is not empty.
unfoldable pub ended : List (List ℕ) → List (List ℕ)
unfolding strip_return
ended [] = []
ended ([] ∷ []) = []
ended ((c ∷ line) ∷ []) = (c ∷ line) ∷ []
ended (line ∷ (next ∷ rest)) = strip_return line ∷ ended (next ∷ rest)

-- `lines`.
unfoldable pub lines : List ℕ → List (List ℕ)
unfolding split ended
lines s = ended (split 10 s)

-- A number behind `0x`; `none` without it.
unfoldable pub hex_field : List ℕ → Option ℕ
hex_field [] = none
hex_field (a ∷ []) = none
hex_field (a ∷ (b ∷ s)) = if (a == 48) && (b == 120) then parse_hex 64 s else none

abbrev pub resource_from : Option ℕ → Option ℕ → Option ℕ → Option PciMemoryResource
resource_from (some start) (some end) (some flags) =
    if ltb 0 start then some (record { start = start; end = end; flags = flags }) else none
resource_from (some start) (some end) none = none
resource_from (some start) none flags = none
resource_from none end flags = none

-- The resource of a line of three parts.
unfoldable pub resource_of : List (List ℕ) → Option PciMemoryResource
unfolding hex_field
resource_of (start ∷ (end ∷ (flags ∷ []))) =
    resource_from (hex_field start) (hex_field end) (hex_field flags)
resource_of (start ∷ (end ∷ (flags ∷ (more ∷ parts)))) = none
resource_of (start ∷ (end ∷ [])) = none
resource_of (start ∷ []) = none
resource_of [] = none

abbrev pub and_resource : Option PciMemoryResource → List PciMemoryResource → List PciMemoryResource
and_resource none resources = resources
and_resource (some resource) resources = resource ∷ resources

unfoldable pub parse_resources : List (List ℕ) → List PciMemoryResource
unfolding split resource_of
parse_resources [] = []
parse_resources (line ∷ rest) = and_resource (resource_of (split 32 line)) (parse_resources rest)

abbrev pub same_option : Option ℕ → Option ℕ → Bool
same_option none none = true
same_option (some a) (some b) = a == b
same_option none (some b) = false
same_option (some a) none = false

-- `PartialEq` of `PciBdf`.
unfoldable pub same_address : PciBdf → PciBdf → Bool
same_address a b =
    same_option a.domain b.domain
    && (a.bus == b.bus)
    && (a.device == b.device)
    && (a.function == b.function)
    && same_option a.vdefn b.vdefn

module _ (F : Files) where
  open F use {W}

  abbrev pub device_path : PciBdf → List ℕ
  device_path bdf = push pciback_sysfs_path (to_string bdf)

  abbrev pub known : List (List ℕ) → List PciBdf
  known [] = []
  known (name ∷ names) = elim (from_str F.captures name) [
    | ok bdf ↦ bdf ∷ known names
    | err e ↦ known names
    | panic ↦ known names
  ]

  unfoldable pub is_loaded : Action W TxError Bool
  is_loaded = F.try_exists pciback_sysfs_path

  unfoldable pub list_devices : Action W TxError (List PciBdf)
  list_devices = do names ← F.read_dir pciback_sysfs_path; pure (known names)

  unfoldable pub is_assigned : PciBdf → Action W TxError Bool
  is_assigned bdf = F.try_exists (device_path bdf)

  abbrev pub read_irq_if : Bool → PciBdf → Action W TxError (Option ℕ)
  read_irq_if false bdf = pure none
  read_irq_if true bdf = do
    content ← F.read_to_string (push (device_path bdf) (bytes "irq"))
    pure (parse_u32 (F.trim content))

  unfoldable pub read_irq : PciBdf → Action W TxError (Option ℕ)
  read_irq bdf w = read_irq_if (F.exists (push (device_path bdf) (bytes "irq")) w) bdf w

  unfoldable pub read_resources : PciBdf → Action W TxError (List PciMemoryResource)
  unfolding lines parse_resources
  read_resources bdf = do
    content ← F.read_to_string (push (device_path bdf) (bytes "resource"))
    pure (parse_resources (lines content))

  unfoldable pub enable_permissive : PciBdf → Action W TxError (Unit {0})
  enable_permissive bdf = F.write (push pciback_sysfs_path (bytes "permissive")) (to_string bdf)

  -- The write whose failure is dropped; a panic is not.
  abbrev pub whatever : Outcome TxError (Unit {0}) × W → Outcome TxError (Unit {0}) × W
  whatever (ok u, w) = (ok tt, w)
  whatever (err e, w) = (ok tt, w)
  whatever (panic, w) = (panic, w)

  unfoldable pub reset : PciBdf → Action W TxError (Unit {0})
  reset bdf w = whatever (F.write (push (device_path bdf) (bytes "reset")) (49 ∷ 10 ∷ []) w)

  -- The loop over the lines of the file of slots; a line that is no address is passed over.
  unfoldable pub is_slot : PciBdf → List (List ℕ) → Bool
  unfolding same_address
  is_slot bdf [] = false
  is_slot bdf (line ∷ rest) =
      let later = is_slot bdf rest in
      elim (from_str F.captures line) [
        | ok slot ↦ if same_address slot bdf then true else later
        | err e ↦ later
        | panic ↦ later
      ]

  unfoldable pub has_slot : PciBdf → Action W TxError Bool
  unfolding lines is_slot
  has_slot bdf = do
    content ← F.read_to_string (push pciback_sysfs_path (bytes "slots"))
    pure (is_slot bdf (lines content))
