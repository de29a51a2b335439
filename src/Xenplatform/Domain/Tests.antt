-- ===== src/Xenplatform/Domain/Tests.antt =====
-- The theorems on the creation of domains at a hypervisor that makes domain 7 and takes no limits.
use krata.Prelude.{
  ℕ, ◌≡◌, refl, none, List, [], ◌∷◌, length, replicate, arith, ◌==◌, if◌then◌else◌, Outcome, ok,
  err, false,
}
use krata.Xencall
use krata.Xencall.Versions.{XenCall}
use krata.Xencall.Hypercall.{Hypervisor, Structure, DomCtlValue, Contents, Arg}
use krata.Xenplatform.Sys.{Error, HyperApi}
use krata.Xenplatform.FromXencall.{xencall_populate}
use krata.Xenplatform.X86pv.Memory.{fill_p2m}
use krata.Xenplatform.X86pv.Memory.Complete.{Ends, initialize_memory_filled}
use krata.Xenplatform.Domain.{
  PlatformDomainConfig, Writes, Readers, pv, elf_uncompressed, create_base_domain, create,
}
use krata.Xenplatform.Domain.Created.{AfterDestroy, CleanedUp, create-CleanedUp}
use krata.Xencall.Domctl

-- The state is the list of the domains that there are.
abbrev domains : HyperApi
domains = record {
  W = List ℕ;
  mmap = λ len w. (none, w);
  mmap_batch = λ domid num addr mfns w. (ok 0, w);
  munmap = λ addr len w. (0, w);
  fill_zero = λ addr len w. w;
  copy = λ addr bytes w. w;
}

abbrev hypercalls :
    (s : Structure) → ℕ → List Arg → Contents s → List ℕ → Outcome ℕ ℕ × (Contents s × List ℕ)
hypercalls (Structure.domctl DomCtlValue.create_domain2) op args c w =
    (ok 0, (record c { domid = 7 }, 7 ∷ w))
hypercalls (Structure.domctl DomCtlValue.pad) op args c w =
    (ok 0, (c, if c.cmd == 2 then [] else w))
hypercalls Structure.memory_reservation op args c w = (ok (length c.extent_start), (c, w))
hypercalls s op args c w = (err 22, (c, w))

abbrev resources : (dom typ id idx num addr : ℕ) → List ℕ → Outcome ℕ ℕ × List ℕ
resources dom typ id idx num addr w = (err 22, w)

abbrev no_writes : Writes (List ℕ)
no_writes = record {
  write_words = λ addr words w. w;
  write_start_info = λ addr info w. w;
  mask_upcalls = λ addr count w. w;
  write_grant_entry = λ addr index entry w. w;
}

abbrev no_readers : Readers
no_readers = record {
  minimal_parse = λ data_of. err (Error.elf_invalid_image "no image");
  find_iter = λ text word. [];
  gz_decoder = λ text. [];
  xz_decoder = λ text. [];
}

abbrev version_17 : XenCall
version_17 = record { domctl_interface_version = 0x17; sysctl_interface_version = 0x20 }

abbrev small_guest : PlatformDomainConfig
small_guest = record {
  uuid = replicate 16 1;
  platform = pv;
  resources = record { max_vcpus = 1; assigned_memory_mb = 16; max_memory_mb = 16 };
  kernel = record { initrd = none; cmdline = "" };
  kernel_data = [];
  kernel_format = elf_uncompressed;
  iommu = false;
}

no_domain_left :
    AfterDestroy domains hypercalls resources no_writes no_readers version_17 (λ domid w. w ≡ [])
no_domain_left domid w = refl

fails :
    (create domains hypercalls resources no_writes no_readers version_17 small_guest [])
    ≡ (err (Error.xen_call (Xencall.Error.kernel 22)), [])
unfolding create Domctl.create_domain Domctl.set_max_vcpus Domctl.destroy_domain
fails = refl

create-CleanedUp_example :
    CleanedUp domains hypercalls resources no_writes no_readers version_17
      (λ domid w. w ≡ [])
      (create_base_domain domains hypercalls resources no_writes no_readers version_17 small_guest
        []).0
      (create domains hypercalls resources no_writes no_readers version_17 small_guest [])
create-CleanedUp_example =
    create-CleanedUp domains hypercalls resources no_writes no_readers version_17
      (λ domid w. w ≡ []) small_guest [] no_domain_left

abbrev hypervisor : Hypervisor
hypervisor = record { W = List ℕ; hypercall = hypercalls; mmap_resource = resources }

initialize_memory_filled_example :
    Ends (λ p2m. length p2m ≡ 514) (fill_p2m (xencall_populate hypervisor) 7 514 []).0
initialize_memory_filled_example = initialize_memory_filled hypervisor 7 514 [] (omega arith)
