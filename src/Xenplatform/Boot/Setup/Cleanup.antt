-- ===== src/Xenplatform/Boot/Setup/Cleanup.antt =====
-- No page stays mapped after `boot`, nor after an `initialize` that fails.
use krata.Prelude.{ℕ, zero, suc, ◌≡◌, ◌≢◌, refl, ◌∙◌, List, [], ◌∷◌, Outcome, ok, err, panic}
use krata.Xenplatform.Sys.{Error, HyperApi, shl64}
use krata.Xenplatform.Mem.{PhysicalPage, unmap_each, unmap_all, unmapped_one}
use krata.Xenplatform.Boot.{BootDomain}
use krata.Xenplatform.Boot.Setup.{
  BootSetupPlatform, BootCalls, BootImageLoader, PlatformKernelConfig, unmap_phys,
  initialize_internal, initialize_parsed, or_clean_up, boot_internal, boot, after_boot,
}

module _ (H : HyperApi) where
  open H use {W, munmap}

  -- munmap answers 0, as it does for addresses that are multiples of the page size.
  abbrev pub Unmaps : Type 0
  Unmaps = (addr len : ℕ) (w : W) → (munmap addr len w).0 ≡ 0

  -- The state after each page has been given back, with the length that it was mapped with.
  abbrev pub given_back : ℕ → List PhysicalPage → W → W
  given_back shift [] w = w
  given_back shift (p ∷ pages) w = given_back shift pages (munmap p.ptr (shl64 p.count shift) w).1

  -- Every page that was mapped in the one state has been given back to libc in the other, and none is left.
  abbrev pub IsUnmapped : BootDomain × W → BootDomain × W → Type 0
  IsUnmapped (d, w) (d', w') =
      (d'.phys.pages ≡ []) × (w' ≡ given_back d.phys.page_shift d.phys.pages w)

  module _ (u : Unmaps) where
    unmapped_rest :
        (rest : Outcome Error (Unit {0}) × W) (r : ℕ × W) → r.0 ≡ 0 → unmapped_one H rest r ≡ rest
    unmapped_rest rest (zero, w) e = refl
    unmapped_rest rest (suc n, w) e = absurd (cc e)

    unmap_each_ok :
        (shift : ℕ) (pages : List PhysicalPage) (w : W)
        → unmap_each H shift pages w ≡ (ok tt, given_back shift pages w)
    unfolding unmap_each
    unmap_each_ok shift [] w = refl
    unmap_each_ok shift (p ∷ pages) w =
        unmapped_rest _ (munmap p.ptr (shl64 p.count shift) w) (u _ _ w)
        ∙ unmap_each_ok shift pages (munmap p.ptr (shl64 p.count shift) w).1

    -- `unmap_all` unmaps every page, and does not fail.
    unmap_phys_ok :
        (d : BootDomain) (w : W)
        → unmap_phys H (d, w) ≡ (
          ok tt,
          (
            record d { phys = record d.phys { pages = [] } },
            given_back d.phys.page_shift d.phys.pages w,
          ),
        )
    unfolding unmap_phys unmap_all
    unmap_phys_ok d w = rw (unmap_each_ok d.phys.page_shift d.phys.pages w) refl

    -- The end of `after_boot` and of `or_clean_up`.
    after_boot_lem :
        (s : Outcome Error (Unit {0}) × (BootDomain × W))
        → s.0 ≢ panic
        → ((after_boot H s).0 ≡ s.0) × IsUnmapped s.1 (after_boot H s).1
    after_boot_lem (ok tt', (d, w)) n = rw (unmap_phys_ok d w) (refl, (refl, refl))
    after_boot_lem (err x, (d, w)) n = rw (unmap_phys_ok d w) (refl, (refl, refl))
    after_boot_lem (panic, s) n = absurd (n refl)

    or_clean_up_lem :
        (s : Outcome Error (Unit {0}) × (BootDomain × W)) (x : Error)
        → s.0 ≡ err x
        → ((or_clean_up H s).0 ≡ err x) × IsUnmapped s.1 (or_clean_up H s).1
    or_clean_up_lem (ok tt', s) x h = absurd (cc h)
    or_clean_up_lem (err y, (d, w)) x h = rw (unmap_phys_ok d w) (h, (refl, refl))
    or_clean_up_lem (panic, s) x h = absurd (cc h)

    -- If munmap succeeds, then however the steps of `boot` end, short of a panic, every page that they
    -- leave mapped is given back to munmap with its length, none stays in the list, and the result is
    -- theirs.
    pub boot_unmaps :
        (platform : BootSetupPlatform H) (calls : BootCalls H) (domid : ℕ) (d : BootDomain) (w : W)
        → (boot_internal H platform calls domid (d, w)).0 ≢ panic
        → let s = boot_internal H platform calls domid (d, w) in
          ((boot H platform calls domid (d, w)).0 ≡ s.0)
          × IsUnmapped s.1 (boot H platform calls domid (d, w)).1
    unfolding boot
    boot_unmaps platform calls domid d w n =
        after_boot_lem (boot_internal H platform calls domid (d, w)) n

    -- If munmap succeeds, an error of one of the steps of `initialize` is its result, after every page
    -- that they leave mapped has been given back to munmap with its length.
    pub initialize_unmaps :
        (platform : BootSetupPlatform H) (calls : BootCalls H) (domid : ℕ)
        (loader : BootImageLoader H) (kernel : PlatformKernelConfig) (d : BootDomain) (w : W)
        (x : Error)
        → (initialize_internal H platform calls domid loader kernel (d, w)).0 ≡ err x
        → let s = initialize_internal H platform calls domid loader kernel (d, w) in
          ((initialize_parsed H platform calls domid loader kernel (d, w)).0 ≡ err x)
          × IsUnmapped s.1 (initialize_parsed H platform calls domid loader kernel (d, w)).1
    unfolding initialize_parsed
    initialize_unmaps platform calls domid loader kernel d w x h =
        or_clean_up_lem (initialize_internal H platform calls domid loader kernel (d, w)) x h
