-- ===== src/Xenplatform/X86pv/Platform/Apart.antt =====
-- Segments that share no frame: one that lies above all others takes a place among them.
use krata.Prelude.{
  ℕ, zero, suc, ◌+◌, ◌≤◌, ◌⊎◌, inl, inr, Option, none, some, List, [], ◌∷◌, set, All, arith,
}
use krata.Xenplatform.Boot.{DomainSegment}
use krata.Xenplatform.X86pv.Platform.{X86PvPlatform}

-- The segments of a platform.
abbrev pub segments : X86PvPlatform → List (Option DomainSegment)
segments p =
    p.p2m_segment ∷ p.page_table_segment ∷ p.start_info_segment ∷ p.boot_stack_segment
    ∷ p.xenstore_segment ∷ []

-- All frames of the segment are below `n`.
abbrev pub Below : ℕ → Option DomainSegment → Type 0
Below n none = Unit
Below n (some g) = g.pfn + g.pages ≤ n

-- No frame is in both.
abbrev pub Apart : Option DomainSegment → Option DomainSegment → Type 0
Apart none h = Unit
Apart (some g) none = Unit
Apart (some g) (some h) = (g.pfn + g.pages ≤ h.pfn) ⊎ (h.pfn + h.pages ≤ g.pfn)

abbrev pub AllApart : List (Option DomainSegment) → Type 0
AllApart [] = Unit
AllApart (g ∷ gs) = All (Apart g) gs × AllApart gs

pub All-Below-up :
    (n m : ℕ) (gs : List (Option DomainSegment)) → n ≤ m → All (Below n) gs → All (Below m) gs
All-Below-up n m [] h b = tt
All-Below-up n m (none ∷ gs) h b = (tt, All-Below-up n m gs h b.1)
All-Below-up n m (some g ∷ gs) h b = (omega arith, All-Below-up n m gs h b.1)

-- A segment above all others takes a place among them.
pub set-Below :
    (n m i : ℕ) (g : DomainSegment) (gs : List (Option DomainSegment))
    → n ≤ m
    → g.pfn + g.pages ≤ m
    → All (Below n) gs
    → All (Below m) (set gs i (some g))
set-Below n m i g [] h k b = tt
set-Below n m zero g (o ∷ gs) h k b = (k, All-Below-up n m gs h b.1)
set-Below n m (suc i) g (none ∷ gs) h k b = (tt, set-Below n m i g gs h k b.1)
set-Below n m (suc i) g (some f ∷ gs) h k b = (omega arith, set-Below n m i g gs h k b.1)

Apart-above :
    (g : DomainSegment) (gs : List (Option DomainSegment))
    → All (Below g.pfn) gs
    → All (Apart (some g)) gs
Apart-above g [] b = tt
Apart-above g (none ∷ gs) b = (tt, Apart-above g gs b.1)
Apart-above g (some f ∷ gs) b = (inr b.0, Apart-above g gs b.1)

Apart-set :
    (o : Option DomainSegment) (i : ℕ) (g : DomainSegment) (gs : List (Option DomainSegment))
    → Below g.pfn o
    → All (Apart o) gs
    → All (Apart o) (set gs i (some g))
Apart-set o i g [] b a = tt
Apart-set none zero g (f ∷ gs) b a = (tt, a.1)
Apart-set (some o) zero g (f ∷ gs) b a = (inl b, a.1)
Apart-set o (suc i) g (f ∷ gs) b a = (a.0, Apart-set o i g gs b a.1)

pub set-AllApart :
    (i : ℕ) (g : DomainSegment) (gs : List (Option DomainSegment))
    → All (Below g.pfn) gs
    → AllApart gs
    → AllApart (set gs i (some g))
set-AllApart i g [] b a = tt
set-AllApart zero g (o ∷ gs) b a = (Apart-above g gs b.1, a.1)
set-AllApart (suc i) g (o ∷ gs) b a = (Apart-set o i g gs b.0 a.0, set-AllApart i g gs b.1 a.1)
