-- ===== src/Xenplatform/Mem/Lookup.antt =====
-- `find_page`, the loop of `pfn_to_ptr`, against the ranges of the pages.
use krata.Prelude.{
  ℕ, ◌+◌, ◌-◌, ◌*◌, ◌≤◌, ◌<◌, ◌≡◌, ◌⊎◌, refl, sym, ◌∙◌, List, [], ◌∷◌, ◌++◌, All, arith, inl, inr,
}
use krata.Xenplatform.Mem.{PhysicalPage, Visit, skip, out_of_range, inside, visit, find_page}

-- The page's frames and bytes do not leave u64, at pages of 4096 bytes.
pub record IsMapped (p : PhysicalPage) : Type 0 where
  pub nonempty : 0 < p.count
  pub frames : p.pfn + p.count < 18446744073709551616
  pub space : p.ptr + p.count * 4096 < 18446744073709551616

-- No frame of `count` from `pfn` is the page's.
abbrev pub Apart : ℕ → ℕ → PhysicalPage → Type 0
Apart pfn count p = (p.pfn + p.count ≤ pfn) ⊎ (pfn + count ≤ p.pfn)

-- The page holds all `count` frames from `pfn`, and `ptr` is where the first of them is mapped.
pub record Holds (pfn count ptr : ℕ) (p : PhysicalPage) : Type 0 where
  pub from : p.pfn ≤ pfn
  pub first : pfn < p.pfn + p.count
  pub to : pfn + count ≤ p.pfn + p.count
  pub address : ptr ≡ p.ptr + (pfn - p.pfn) * 4096

abbrev pub Any {ℓ} : {A : Type ℓ} → (A → Type 0) → List A → Type 0
Any P [] = ⊥
Any P (x ∷ xs) = P x ⊎ Any P xs

visit_inside :
    (pfn count ptr : ℕ) (p : PhysicalPage)
    → IsMapped p
    → pfn + count < 18446744073709551616
    → visit 12 pfn count p ≡ inside ptr
    → Holds pfn count ptr p
unfolding visit
visit_inside pfn count ptr p v h e = ground arith

visit_skip :
    (pfn count : ℕ) (p : PhysicalPage)
    → IsMapped p
    → 0 < count
    → pfn + count < 18446744073709551616
    → visit 12 pfn count p ≡ skip
    → Apart pfn count p
unfolding visit
visit_skip pfn count p v pos h e = ground arith

visit-Apart :
    (pfn count : ℕ) (p : PhysicalPage)
    → IsMapped p
    → 0 < count
    → pfn + count < 18446744073709551616
    → Apart pfn count p
    → visit 12 pfn count p ≡ skip
unfolding visit
visit-Apart pfn count p v pos h (inl e) = ground arith
visit-Apart pfn count p v pos h (inr e) = ground arith

pub Visit-cases : (v : Visit) → (v ≡ skip) ⊎ ((v ≡ out_of_range) ⊎ ((ptr : ℕ) × (v ≡ inside ptr)))
Visit-cases skip = inl refl
Visit-cases out_of_range = inr (inl refl)
Visit-cases (inside ptr) = inr (inr (ptr, refl))

visit_own :
    (pfn count ptr : ℕ)
    → IsMapped (record { pfn = pfn; ptr = ptr; count = count })
    → visit 12 pfn count (record { pfn = pfn; ptr = ptr; count = count }) ≡ inside ptr
unfolding visit
visit_own pfn count ptr v = ground arith

-- An address comes from a page that holds every frame that was asked for.
pub find_page_inside :
    (pfn count ptr : ℕ) (pages : List PhysicalPage)
    → All IsMapped pages
    → pfn + count < 18446744073709551616
    → find_page 12 pfn count pages ≡ inside ptr
    → Any (Holds pfn count ptr) pages
unfolding find_page
find_page_inside pfn count ptr [] v h e = cc
find_page_inside pfn count ptr (p ∷ pages) v h e = elim (Visit-cases (visit 12 pfn count p)) [
  | inl s ↦ inr (find_page_inside pfn count ptr pages v.1 h (sym (rw (s, find_page) refl) ∙ e))
  | inr (inl o) ↦ absurd (ground arith)
  | inr (inr (q, i)) ↦ inl (visit_inside pfn count ptr p v.0 h (ground arith))
]

-- If no page is found, none of the frames lies in a page.
pub find_page_skip :
    (pfn count : ℕ) (pages : List PhysicalPage)
    → All IsMapped pages
    → 0 < count
    → pfn + count < 18446744073709551616
    → find_page 12 pfn count pages ≡ skip
    → All (Apart pfn count) pages
unfolding find_page
find_page_skip pfn count [] v pos h e = tt
find_page_skip pfn count (p ∷ pages) v pos h e = elim (Visit-cases (visit 12 pfn count p)) [
  | inl s ↦ (
    visit_skip pfn count p v.0 pos h s,
    find_page_skip pfn count pages v.1 pos h (sym (rw (s, find_page) refl) ∙ e),
  )
  | inr (inl o) ↦ absurd (ground arith)
  | inr (inr (q, i)) ↦ absurd (ground arith)
]

-- A new page at the end is found for its own frames, where no page before it holds any of them.
pub find_page-append :
    (pfn count ptr : ℕ) (pages : List PhysicalPage)
    → All IsMapped pages
    → IsMapped (record { pfn = pfn; ptr = ptr; count = count })
    → All (Apart pfn count) pages
    → find_page 12 pfn count (pages ++ record { pfn = pfn; ptr = ptr; count = count } ∷ [])
      ≡ inside ptr
unfolding find_page
find_page-append pfn count ptr [] v n a = rw (visit_own pfn count ptr n, find_page) refl
find_page-append pfn count ptr (p ∷ pages) v n (a, rest) =
    rw (visit-Apart pfn count p v.0 n.nonempty n.frames a, find_page)
      (find_page-append pfn count ptr pages v.1 n rest)
