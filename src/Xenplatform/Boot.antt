-- ===== src/Xenplatform/Boot.antt =====
-- crates/xen/xenplatform/src/boot.rs: how a guest's frames and its virtual addresses are handed out
-- while it is built, with u64 arithmetic that wraps.
pub mod Segments
pub mod AllocSegment
pub mod Sequence
pub mod Setup
use Prim.Native.String.{String}
use krata.Prelude.{
  ℕ, zero, suc, ◌+◌, ◌-◌, ◌*◌, ◌/◌, ◌%◌, ◌^◌, Bool, true, false, not, ◌||◌, Option, none, some,
  List, [], ◌∷◌, length, ltb, leb, ◌==◌, if◌then◌else◌, Outcome, ok, err, panic,
}
use Prim.Native.Nat.{bit_or}
use krata.Prelude.Effect.{Action, ◌>>=◌, ◌>>◌, pure, raise, gets, modify}
use krata.Xenplatform.Sys.{Error, HyperApi, xen_page_shift, add64, sub64, mul64}
use krata.Xenplatform.Mem.{PhysicalPages, pfn_to_ptr}

pub record DomainSegment : Type 0 where
  pub vstart : ℕ
  pub vend : ℕ
  pub pfn : ℕ
  pub addr : ℕ
  pub size : ℕ
  pub pages : ℕ

pub record BootImageInfo : Type 0 where
  pub start : ℕ
  pub virt_base : ℕ
  pub virt_kstart : ℕ
  pub virt_kend : ℕ
  pub virt_hypercall : ℕ
  pub virt_entry : ℕ
  pub virt_p2m_base : ℕ
  pub unmapped_initrd : Bool

pub record BootDomain : Type 0 where
  pub domid : ℕ
  pub page_size : ℕ
  pub virt_alloc_end : ℕ
  pub pfn_alloc_end : ℕ
  pub virt_pgtab_end : ℕ
  pub total_pages : ℕ
  pub target_pages : ℕ
  pub max_vcpus : ℕ
  pub image_info : BootImageInfo
  pub phys : PhysicalPages
  pub store_evtchn : ℕ
  pub store_mfn : ℕ
  pub initrd_segment : Option DomainSegment
  pub console_evtchn : ℕ
  pub console_mfn : ℕ
  pub cmdline : String

unfoldable pub chk_alloc_pages : ℕ → Action BootDomain Error (Unit {0})
chk_alloc_pages pages d =
    if ltb d.total_pages pages
      || (ltb d.total_pages d.pfn_alloc_end || ltb (d.total_pages - d.pfn_alloc_end) pages)
    then (err (Error.memory_setup_failed "no more pages left"), d)
    else (
      ok tt,
      record d {
        pfn_alloc_end = add64 d.pfn_alloc_end pages;
        virt_alloc_end = add64 d.virt_alloc_end (mul64 pages d.page_size);
      },
    )

-- `page_size` is a power of two, so the low bits that the mask keeps are the remainder.
unfoldable pub alloc_padding_pages : ℕ → Action BootDomain Error (Unit {0})
unfolding chk_alloc_pages
alloc_padding_pages boundary d =
    if not (boundary % d.page_size == 0)
    then (err (Error.memory_setup_failed "boundary is incorrect"), d)
    else if ltb boundary d.virt_alloc_end
    then (err (Error.memory_setup_failed "boundary is below allocation end"), d)
    else chk_alloc_pages ((boundary - d.virt_alloc_end) / d.page_size) d

abbrev pub page_segment :
    BootDomain → Outcome Error (Unit {0}) × BootDomain → Outcome Error DomainSegment × BootDomain
page_segment b (ok u, d) = (
  ok (record {
    vstart = b.virt_alloc_end;
    vend = sub64 (add64 b.virt_alloc_end b.page_size) 1;
    pfn = b.pfn_alloc_end;
    addr = 0;
    size = 0;
    pages = 1;
  }),
  d,
)
page_segment b (err e, d) = (err e, d)
page_segment b (panic, d) = (panic, d)

unfoldable pub alloc_page : Action BootDomain Error DomainSegment
unfolding chk_alloc_pages
alloc_page d = page_segment d (chk_alloc_pages 1 d)

-- `div_ceil` by the page size of Xen, 4096.
unfoldable pub pages_of : ℕ → ℕ
pages_of size = (size + (2 ^ xen_page_shift - 1)) / 2 ^ xen_page_shift

unfoldable pub round_up : ℕ → ℕ → ℕ
round_up addr mask = bit_or addr mask

unfoldable pub bits_to_mask : ℕ → ℕ
bits_to_mask bits = sub64 (2 ^ (bits % 64)) 1

module _ (H : HyperApi) where
  open H use {W, fill_zero, copy}

  abbrev pub Building : Type 0
  Building = BootDomain × W

  -- The end of `alloc_segment`: the memory at the address is cleared and the segment is filled in
  -- from `b`, the domain before its pages were taken.
  abbrev pub segment_at :
      ℕ
      → BootDomain
      → BootDomain
      → Outcome Error ℕ × (PhysicalPages × W)
      → Outcome Error DomainSegment × Building
  segment_at size b d (ok ptr, (phys, w)) = (
    ok (record {
      vstart = b.virt_alloc_end;
      vend = d.virt_alloc_end;
      pfn = b.pfn_alloc_end;
      addr = ptr;
      size = size;
      pages = pages_of size;
    }),
    (record d { phys = phys }, fill_zero ptr (mul64 (pages_of size) (2 ^ xen_page_shift)) w),
  )
  segment_at size b d (err e, (phys, w)) = (err e, (record d { phys = phys }, w))
  segment_at size b d (panic, (phys, w)) = (panic, (record d { phys = phys }, w))

  abbrev pub with_pages :
      ℕ
      → BootDomain
      → W
      → Outcome Error (Unit {0}) × BootDomain
      → Outcome Error DomainSegment × Building
  with_pages size b w (ok u, d) =
      segment_at size b d (pfn_to_ptr H b.pfn_alloc_end (pages_of size) (d.phys, w))
  with_pages size b w (err e, d) = (err e, (d, w))
  with_pages size b w (panic, d) = (panic, (d, w))

  abbrev pub padded :
      ℕ → W → Outcome Error (Unit {0}) × BootDomain → Outcome Error DomainSegment × Building
  padded size w (ok u, d) = with_pages size d w (chk_alloc_pages (pages_of size) d)
  padded size w (err e, d) = (err e, (d, w))
  padded size w (panic, d) = (panic, (d, w))

  unfoldable pub alloc_segment : ℕ → ℕ → Action Building Error DomainSegment
  unfolding pages_of chk_alloc_pages alloc_padding_pages
  alloc_segment start size (d, w) =
      padded size w (if ltb 0 start then alloc_padding_pages start d else (ok tt, d))

  abbrev pub copied :
      List ℕ → Outcome Error DomainSegment × Building → Outcome Error DomainSegment × Building
  copied buffer (ok segment, (d, w)) = (ok segment, (d, copy segment.addr buffer w))
  copied buffer (err e, s) = (err e, s)
  copied buffer (panic, s) = (panic, s)

  unfoldable pub alloc_module : List ℕ → Action Building Error DomainSegment
  unfolding alloc_segment
  alloc_module buffer s = copied buffer (alloc_segment 0 (length buffer) s)
