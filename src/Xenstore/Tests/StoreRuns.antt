-- ===== src/Xenstore/Tests/StoreRuns.antt =====
-- A store in memory that keeps the laws of `IsStore`, and the client in front of it.
use krata.Prelude.{
  ℕ, zero, suc, ◌+◌, ◌<◌, ◌≡◌, refl, ap, ◌∙◌, Bool, true, false, ◌&&◌, Option, none, some, List, [],
  ◌∷◌, ◌++◌, arith, ◌==◌, if◌then◌else◌, Outcome, ok, err, Option-cases, Bool-cases, ◌≢◌, inl, inr,
}
use krata.Prelude.Text.{bytes, bytes_eq}
use krata.Prelude.Effect.{Action}
use krata.Xenstore.Sys.{Error, xsd_read, xsd_write, xsd_rm, xsd_set_perms}
use krata.Xenstore.Message.{XsdMessage, split_nul, join_nul}
use krata.Xenstore.Client.{XsPermission, perm_letter, encode_perm, encode_perms, has_nul}
use krata.Xenstore.Client.Store.{enoent, IsStore}

abbrev pub Contents : Type 0
Contents = List ℕ → Option (List ℕ)

abbrev pub answer : List ℕ → XsdMessage
answer payload = record { header = record { typ = 0; req = 0; tx = 0; len = 0 }; payload = payload }

abbrev pub updated : Contents → List ℕ → Option (List ℕ) → Contents
updated w path v q = if bytes_eq q path then v else w q

pub serve_read : Option (List ℕ) → Contents → Outcome Error XsdMessage × Contents
serve_read none w = (err enoent, w)
serve_read (some v) w = (ok (answer v), w)

pub serve_rm : Option (List ℕ) → List ℕ → Contents → Outcome Error XsdMessage × Contents
serve_rm none path w = (err enoent, w)
serve_rm (some v) path w = (ok (answer []), updated w path none)

abbrev pub serve : ℕ → List ℕ → List ℕ → Contents → Outcome Error XsdMessage × Contents
serve typ path rest w =
    if typ == xsd_write
    then (ok (answer []), updated w path (some rest))
    else if typ == xsd_read
    then serve_read (w path) w
    else if typ == xsd_rm
    then serve_rm (w path) path w
    else (ok (answer []), w)

abbrev pub at_path : Option (List ℕ × List ℕ) → ℕ → Contents → Outcome Error XsdMessage × Contents
at_path none typ w = (err Error.io, w)
at_path (some (path, rest)) typ w = serve typ path rest w

pub in_memory : ℕ → ℕ → List ℕ → Action Contents Error XsdMessage
in_memory tx typ payload w = at_path (split_nul payload) typ w

abbrev pub visible : Contents → ℕ → List ℕ → Option (List ℕ)
visible w tx path = w path

bytes_eq_refl : (s : List ℕ) → bytes_eq s s ≡ true
bytes_eq_refl [] = refl
bytes_eq_refl (b ∷ s) = ground (arith, bytes_eq_refl s)

split_nul-path :
    (path rest : List ℕ) → has_nul path ≡ false → split_nul (path ++ 0 ∷ rest) ≡ some (path, rest)
unfolding split_nul has_nul
split_nul-path [] rest h = elim (Option-cases (split_nul rest)) [
  | inl e ↦ rw (e, split_nul) refl
  | inr (s, e) ↦ rw (e, split_nul) refl
]
split_nul-path (b ∷ path) rest h = ground (arith, split_nul-path path rest)

in_memory_at :
    (tx typ : ℕ) (path rest : List ℕ) (w : Contents)
    → has_nul path ≡ false
    → in_memory tx typ (path ++ 0 ∷ rest) w ≡ serve typ path rest w
unfolding in_memory
in_memory_at tx typ path rest w h = rw (split_nul-path path rest h) refl

pub store : IsStore Contents in_memory visible
unfolding join_nul serve_read serve_rm
store = record {
  written = λ tx path value w h. (
    answer [],
    updated w path (some value),
    in_memory_at tx xsd_write path value w h,
    rw (bytes_eq_refl path) refl,
  );
  found = λ tx path value w h c.
      (answer value, in_memory_at tx xsd_read path [] w h ∙ ap (λ k. serve_read k w) c, refl);
  missing = λ tx path w h c. in_memory_at tx xsd_read path [] w h ∙ ap (λ k. serve_read k w) c;
  removed = λ tx path value w h c. (
    answer [],
    updated w path none,
    in_memory_at tx xsd_rm path [] w h ∙ ap (λ k. serve_rm k path w) c,
    rw (bytes_eq_refl path) refl,
  );
  not_removed = λ tx path w h c. in_memory_at tx xsd_rm path [] w h ∙ ap (λ k. serve_rm k path w) c;
  permitted = λ tx path value items w h c.
      (answer [], w, in_memory_at tx xsd_set_perms path (join_nul items) w h, c);
}

bytes_eq_ne : (p q : List ℕ) → p ≢ q → bytes_eq p q ≡ false
bytes_eq_ne [] [] h = absurd (h refl)
bytes_eq_ne [] (y ∷ q) h = refl
bytes_eq_ne (x ∷ p) [] h = refl
bytes_eq_ne (x ∷ p) (y ∷ q) h = elim (Bool-cases (x == y)) [
  | inl e ↦ rw e (bytes_eq_ne p q (λ k. h (same e k)))
  | inr e ↦ rw e refl
]
  where
    same : (x == y) ≡ true → p ≡ q → x ∷ p ≡ y ∷ q
    same e k = let l : x ≡ y = ground arith in cc

-- A write changes the entry of its own path only.
pub keeps :
    (tx : ℕ) (path other value : List ℕ) (w : Contents)
    → has_nul path ≡ false
    → other ≢ path
    → visible (in_memory tx xsd_write (path ++ 0 ∷ value) w).1 tx other ≡ visible w tx other
keeps tx path other value w c h =
    ap (λ s. s.1 other) (in_memory_at tx xsd_write path value w c)
    ∙ ap (λ b. if b then some value else w other) (bytes_eq_ne other path h)

abbrev path : List ℕ
path = 47 ∷ 97 ∷ []

abbrev pub empty : Contents
empty q = none

clean : has_nul path ≡ false
unfolding has_nul
clean = refl

abbrev reader : XsPermission
reader = record { id = 0; perms = 1 }

reader_encoded : encode_perms (reader ∷ []) ≡ ok ((114 ∷ 48 ∷ []) ∷ [])
unfolding encode_perms encode_perm perm_letter krata.Prelude.Text.Decimal.to_string
    krata.Prelude.Text.Decimal.digits
reader_encoded = refl
