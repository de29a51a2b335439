-- ===== src/Xenplatform/X86pv/Platform/Disjoint.antt =====
-- The segments of `alloc_magic_pages` share no frame.
use krata.Prelude.{
  ℕ, ◌≡◌, refl, sym, subst, Bool, true, false, Option, none, some, set, All, arith, ltb, Outcome,
  ok, err, panic, or_panic, get_elem?,
}
use krata.Prelude.Effect.{Action, pure}
use krata.Prelude.Triples.{Returns, Triple, by_run, next, weaker}
use krata.Xenplatform.Sys.{Error, HyperApi, add64, mul64, shl64}
use krata.Xenplatform.Boot.{DomainSegment, BootDomain}
use krata.Xenplatform.Boot.Segments.{IsBooting, Progress, alloc_padding_pages_lem}
use krata.Xenplatform.X86pv.Tables.{PageTable, mapping_at}
use krata.Xenplatform.X86pv.Platform.{
  X86PvPlatform, new, X86Calls, Built, of_domain, change_domain, change_platform, call_out,
  in_table, on_domain_only, on_table, beside, of_platform, p2m_at,
}
use krata.Xenplatform.X86pv.Platform.Alloc.{
  alloc_page_tables, alloc_p2m_segment, p2m_first, p2m_last, apart_from_kernel, in_use_at,
  p2m_bytes, counted_tables, counted_p2m, p2m_placed, p2m_missing, pad_to, keep_p2m, with_vstart,
  start_info_first, xenstore_page, console_page, tables_and_stack, alloc_magic_pages,
}
use krata.Xenplatform.X86pv.Platform.Apart.{segments, Below, AllApart, set-Below, set-AllApart}
use krata.Xenplatform.X86pv.Platform.LaidOut.{
  IsLaidOut, Pending, Kept, Pending-IsLaidOut, Progress-IsLaidOut, Same-IsLaidOut,
  alloc_page-Pending, alloc_segment-Pending,
}

module _ (H : HyperApi) (calls : X86Calls H.W) where
  on_table-Kept :
      {A : Type 0} (d : BootDomain) (p : X86PvPlatform) (w : H.W) (r : Outcome Error A × PageTable)
      → IsLaidOut H (d, (p, w))
      → Returns (Kept H) (on_table H d p w r)
  on_table-Kept d p w (ok a, t) k = record { booting = k.booting; below = k.below; apart = k.apart }
  on_table-Kept d p w (err e, t) k = tt
  on_table-Kept d p w (panic, t) k = tt

  in_table-Kept :
      {A : Type 0} (f : BootDomain → Action PageTable Error A)
      → Triple (IsLaidOut H) (in_table H f) (Kept H)
  in_table-Kept f = by_run (λ (d, (p, w)) k. on_table-Kept d p w _ k)

  beside-Kept :
      {A : Type 0} (d : BootDomain) (p : X86PvPlatform) (r : Outcome Error A × H.W) (w : H.W)
      → IsLaidOut H (d, (p, w))
      → Returns (Kept H) (beside H d p r)
  beside-Kept d p (ok a, w') w k = record { booting = k.booting; below = k.below; apart = k.apart }
  beside-Kept d p (err e, w') w k = tt
  beside-Kept d p (panic, w') w k = tt

  call_out-Kept :
      {A : Type 0} (f : Action H.W Error A) → Triple (IsLaidOut H) (call_out H f) (Kept H)
  call_out-Kept f = by_run (λ (d, (p, w)) k. beside-Kept d p (f w) w k)

  -- A change of the platform's page tables.
  change_table-Kept :
      (f : X86PvPlatform → PageTable)
      → Triple (IsLaidOut H) (change_platform H (λ p. record p { table = f p })) (Kept H)
  change_table-Kept f =
      by_run (λ s k. record { booting = k.booting; below = k.below; apart = k.apart })

  of_domain-Kept : {A : Type 0} (f : BootDomain → A) → Triple (IsLaidOut H) (of_domain H f) (Kept H)
  of_domain-Kept f = by_run (λ s k. k)

  of_platform-Kept :
      {A : Type 0} (f : X86PvPlatform → A) → Triple (IsLaidOut H) (of_platform H f) (Kept H)
  of_platform-Kept f = by_run (λ s k. k)

  -- A change of the domain that leaves its allocations alone.
  same :
      (f : BootDomain → BootDomain)
      → ((d : BootDomain) → (f d).page_size ≡ d.page_size)
      → ((d : BootDomain) → (f d).pfn_alloc_end ≡ d.pfn_alloc_end)
      → ((d : BootDomain) → (f d).virt_alloc_end ≡ d.virt_alloc_end)
      → ((d : BootDomain) → (f d).total_pages ≡ d.total_pages)
      → Triple (IsLaidOut H) (change_domain H f) (Kept H)
  same f a b c e = by_run (λ (d, s) k. Same-IsLaidOut H (d, s) _ k (a d) (b d) (c d) (e d))

  padded-Kept :
      (d : BootDomain) (s : X86PvPlatform × H.W) (r : Outcome Error (Unit {0}) × BootDomain)
      → IsLaidOut H (d, s)
      → Progress d r.1
      → Returns (Kept H) (on_domain_only H s r)
  padded-Kept d s (ok u, d') k p = Progress-IsLaidOut H (d, s) d' k p
  padded-Kept d s (err e, d') k p = tt
  padded-Kept d s (panic, d') k p = tt

  -- The segment that is pending is put in its place, the `i`th.
  placed :
      (i : ℕ) (g : DomainSegment) (d : BootDomain) (p q : X86PvPlatform) (w : H.W)
      → segments q ≡ set (segments p) i (some g)
      → Pending H g (d, (p, w))
      → IsLaidOut H (d, (q, w))
  placed i g d p q w e k = record {
    booting = k.booting;
    below = subst (All (Below d.pfn_alloc_end)) (sym e) (
        set-Below g.pfn d.pfn_alloc_end i g (segments p) (let l = k.last in omega arith) k.last
          k.below);
    apart = subst AllApart (sym e) (set-AllApart i g (segments p) k.below k.apart);
  }

  put :
      (i : ℕ) (g : DomainSegment) (f : X86PvPlatform → X86PvPlatform)
      → ((p : X86PvPlatform) → segments (f p) ≡ set (segments p) i (some g))
      → Triple (Pending H g) (change_platform H f) (Kept H)
  put i g f e = by_run (λ (d, (p, w)) k. placed i g d p (f p) w (e p) k)

  -- The segment was handed out.
  abbrev PendingIf : Option DomainSegment → Built H → Type 0
  PendingIf none s = ⊥
  PendingIf (some g) s = Pending H g s

  given :
      (g : DomainSegment)
      → Triple (Pending H g) (pure {E = Error} {A = Option DomainSegment} (some g)) PendingIf
  given g = by_run (λ s k. k)

  alloc_page_tables-Pending : Triple (IsLaidOut H) (alloc_page_tables H calls) PendingIf
  unfolding alloc_page_tables
  alloc_page_tables-Pending = next (Kept H) (in_table-Kept counted_tables) (λ found.
      next (Kept H) (change_table-Kept (λ p. in_use_at found.mapping 0 p.table)) (λ u.
        next (Kept H)
          (same (λ d. record d { virt_pgtab_end = add64 found.try_virt_end 1 }) (λ d. refl)
            (λ d. refl) (λ d. refl) (λ d. refl))
          (λ v.
            next (Kept H) (of_platform-Kept (λ p. (mapping_at p.table found.mapping).area.pgtables))
              (λ tables. next (Pending H) (alloc_segment-Pending H (mul64 tables 4096)) given))))

  alloc_p2m_segment-Pending : Triple (IsLaidOut H) (alloc_p2m_segment H calls) PendingIf
  unfolding alloc_p2m_segment
  alloc_p2m_segment-Pending = next (Kept H) (of_domain-Kept (λ d. d)) (λ d.
      next (Kept H) (in_table-Kept counted_p2m) (λ m.
        next (Kept H) (change_table-Kept (λ p. p2m_placed d m p.table)) (λ u.
          next (Kept H) (of_platform-Kept (λ p. (mapping_at p.table m).area.pgtables)) (λ tables.
            next (Pending H) (alloc_segment-Pending H (add64 (p2m_bytes d) (shl64 tables 12)))
              given))))

  put_p2m :
      (o : Option DomainSegment)
      → Triple (PendingIf o) (change_platform H (λ p. record p { p2m_segment = o })) (Kept H)
  put_p2m none = by_run (λ s k. absurd k)
  put_p2m (some g) = put 0 g (λ p. record p { p2m_segment = some g }) (λ p. refl)

  p2m_first-Kept : (first : Bool) → Triple (IsLaidOut H) (p2m_first H calls first) (Kept H)
  unfolding p2m_first
  p2m_first-Kept true = next PendingIf alloc_p2m_segment-Pending put_p2m
  p2m_first-Kept false = by_run (λ s k. k)

  -- A change of the segment's addresses only.
  keep_p2m-Kept : (o : Option DomainSegment) → Triple (PendingIf o) (keep_p2m H calls o) (Kept H)
  keep_p2m-Kept none = by_run (λ s k. absurd k)
  keep_p2m-Kept (some g) = by_run (λ (d, (p, w)) k.
      placed 0 (with_vstart H calls d.image_info.virt_p2m_base g) d p _ w refl
        (record { booting = k.booting; below = k.below; apart = k.apart; last = k.last }))

  p2m_last-Kept : (missing : Bool) → Triple (IsLaidOut H) (p2m_last H calls missing) (Kept H)
  unfolding p2m_last
  p2m_last-Kept true = next PendingIf alloc_p2m_segment-Pending keep_p2m-Kept
  p2m_last-Kept false = by_run (λ s k. k)

  start_info_first-Kept : Triple (IsLaidOut H) (start_info_first H calls) (Kept H)
  start_info_first-Kept =
      next (Pending H) (alloc_page-Pending H)
        (λ g. put 2 g (λ p. record p { start_info_segment = some g }) (λ p. refl))

  p2m_at-Kept : (pfn : ℕ) → Triple (IsLaidOut H) (p2m_at H pfn) (Kept H)
  p2m_at-Kept pfn = by_run (λ s k. at_frame s k (or_panic (get_elem? s.0.phys.p2m pfn)))
    where
      at_frame : (s : Built H) → IsLaidOut H s → (r : Outcome Error ℕ) → Returns (Kept H) (r, s)
      at_frame s k (ok mfn) = k
      at_frame s k (err e) = tt
      at_frame s k panic = tt

  xenstore_page-Kept : Triple (IsLaidOut H) (xenstore_page H calls) (Kept H)
  xenstore_page-Kept = next (Pending H) (alloc_page-Pending H) (λ g.
      next (Kept H) (put 4 g (λ p. record p { xenstore_segment = some g }) (λ p. refl)) (λ u.
        next (Kept H) (p2m_at-Kept g.pfn) (λ mfn.
          same (λ d. record d { store_mfn = mfn }) (λ d. refl) (λ d. refl) (λ d. refl)
            (λ d. refl))))

  console_page-Kept : Triple (IsLaidOut H) (console_page H calls) (Kept H)
  console_page-Kept = next (Kept H) (of_domain-Kept (λ d. d.domid)) (λ domid.
      next (Kept H) (call_out-Kept (calls.evtchn_alloc_unbound domid 0)) (λ evtchn.
        next (Kept H) (weaker (alloc_page-Pending H) (Pending-IsLaidOut H)) (λ page.
          next (Kept H)
            (same (λ d. record d { console_evtchn = evtchn }) (λ d. refl) (λ d. refl) (λ d. refl)
              (λ d. refl))
            (λ u. next (Kept H) (p2m_at-Kept page.pfn) (λ mfn.
              same (λ d. record d { console_mfn = mfn }) (λ d. refl) (λ d. refl) (λ d. refl)
                (λ d. refl))))))

  put_tables :
      (o : Option DomainSegment)
      → Triple (PendingIf o) (change_platform H (λ p. record p { page_table_segment = o })) (Kept H)
  put_tables none = by_run (λ s k. absurd k)
  put_tables (some g) = put 1 g (λ p. record p { page_table_segment = some g }) (λ p. refl)

  tables_and_stack-Kept : Triple (IsLaidOut H) (tables_and_stack H calls) (Kept H)
  tables_and_stack-Kept = next PendingIf alloc_page_tables-Pending (λ o.
      next (Kept H) (put_tables o) (λ u.
        next (Pending H) (alloc_page-Pending H)
          (λ g. put 3 g (λ p. record p { boot_stack_segment = some g }) (λ p. refl))))

  pad_to-Kept : (end : ℕ) → Triple (IsLaidOut H) (pad_to H calls end) (Kept H)
  unfolding pad_to
  pad_to-Kept end = by_test _ refl
    where
      by_test : (b : Bool) → ltb 0 end ≡ b → Triple (IsLaidOut H) (pad_to H calls end) (Kept H)
      by_test true e =
          rw (e, pad_to)
            (by_run (λ (d, s) k. padded-Kept d s _ k (alloc_padding_pages_lem end d k.booting).0))
      by_test false e = rw (e, pad_to) (by_run (λ s k. k))

  alloc_magic_pages-IsLaidOut : Triple (IsLaidOut H) (alloc_magic_pages H calls) (Kept H)
  unfolding alloc_magic_pages
  alloc_magic_pages-IsLaidOut = next (Kept H) (of_domain-Kept (λ d. d.image_info)) (λ info.
      next (Kept H) (p2m_first-Kept (apart_from_kernel info)) (λ u1.
        next (Kept H) start_info_first-Kept (λ u2. next (Kept H) xenstore_page-Kept (λ u3.
          next (Kept H) console_page-Kept (λ u4. next (Kept H) tables_and_stack-Kept (λ u5.
            next (Kept H) (of_domain-Kept (λ d. d.virt_pgtab_end)) (λ end.
              next (Kept H) (pad_to-Kept end) (λ u6.
                next (Kept H) (of_platform-Kept (λ p. p2m_missing p.p2m_segment))
                  p2m_last-Kept))))))))

  -- If alloc_magic_pages returns, in a domain that IsBooting and on a new platform, then no frame
  -- is in two of the segments that the platform keeps (the list of frames, the page tables, the
  -- start info, the stack and the page of the store), and all their frames have been handed out.
  pub alloc_magic_pages-AllApart :
      (d d' : BootDomain) (p' : X86PvPlatform) (w w' : H.W)
      → IsBooting d
      → alloc_magic_pages H calls (d, (new, w)) ≡ (ok tt, (d', (p', w')))
      → AllApart (segments p') × All (Below d'.pfn_alloc_end) (segments p')
  alloc_magic_pages-AllApart d d' p' w w' i e =
      let k = subst (Returns (Kept H)) e (alloc_magic_pages-IsLaidOut.run (d, (new, w)) start) in
      (k.apart, k.below)
    where
      no_segments : AllApart (segments new)
      no_segments = (
        (tt, (tt, (tt, (tt, tt)))),
        ((tt, (tt, (tt, tt))), ((tt, (tt, tt)), ((tt, tt), (tt, tt)))),
      )

      start : IsLaidOut H (d, (new, w))
      start = record { booting = i; below = (tt, (tt, (tt, (tt, (tt, tt))))); apart = no_segments }
