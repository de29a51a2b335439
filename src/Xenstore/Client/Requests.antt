-- ===== src/Xenstore/Client/Requests.antt =====
-- What the client's operations send, and their errors, whatever the store answers.
use krata.Prelude.{
  ℕ, ◌<◌, ◌≡◌, ◌⊎◌, refl, ap, Bool, true, none, some, List, [], ◌∷◌, arith, ok, err, inl, inr,
  Option-cases,
}
use krata.Prelude.Effect.{Action}
use krata.Prelude.Text.Decimal.{to_string, parse_u32, parse_u32-to_string}
use krata.Xenstore.Sys.{Error}
use krata.Xenstore.Message.{XsdMessage}
use krata.Xenstore.Client.{
  XsPermission, perm_letter, encode_perm, encode_perms, has_nul, write, set_perms, mknod,
  write_string,
}

perm_letter-injective : (p q c : ℕ) → perm_letter p ≡ some c → perm_letter q ≡ some c → p ≡ q
unfolding perm_letter
perm_letter-injective p q c e f = ground arith

to_string-injective :
    (m n : ℕ) → m < 4294967296 → n < 4294967296 → to_string m ≡ to_string n → m ≡ n
to_string-injective m n hm hn e =
    let same : parse_u32 (to_string m) ≡ parse_u32 (to_string n) = ap parse_u32 e in
    cc (parse_u32-to_string m hm, parse_u32-to_string n hn)

-- Two permissions of u32 ids that the store is sent in one form are one.
pub encode_perm-injective :
    (p q : XsPermission) (s : List ℕ)
    → p.id < 4294967296
    → q.id < 4294967296
    → encode_perm p ≡ ok s
    → encode_perm q ≡ ok s
    → p ≡ q
unfolding encode_perm
encode_perm-injective p q s hp hq e f = elim (Option-cases (perm_letter p.perms)) [
  | inl none_p ↦ ground arith
  | inr (c, cp) ↦ elim (Option-cases (perm_letter q.perms)) [
    | inl none_q ↦ ground arith
    | inr (d, cq) ↦
        ground (arith, to_string-injective p.id q.id hp hq, perm_letter-injective p.perms q.perms c)
  ]
]

-- An item of the list that has no letter.
abbrev pub HasInvalid : List XsPermission → Type 0
HasInvalid [] = ⊥
HasInvalid (p ∷ ps) = (perm_letter p.perms ≡ none) ⊎ HasInvalid ps

encode_perms_invalid :
    (ps : List XsPermission) → HasInvalid ps → encode_perms ps ≡ err Error.invalid_permissions
unfolding encode_perms encode_perm
encode_perms_invalid [] h = absurd h
encode_perms_invalid (p ∷ ps) (inl h) = ground arith
encode_perms_invalid (p ∷ ps) (inr h) = ground (arith, encode_perms_invalid ps h)

module _ (W : Type 0) (send_buf : ℕ → ℕ → List ℕ → Action W Error XsdMessage) where
  -- A list with a permission that is not none, read, write or both is refused before anything is
  -- sent.
  pub set_perms_invalid :
      (tx : ℕ) (path : List ℕ) (perms : List XsPermission) (w : W)
      → HasInvalid perms
      → set_perms W send_buf tx path perms w ≡ (err Error.invalid_permissions, w)
  unfolding set_perms
  set_perms_invalid tx path perms w h = rw (encode_perms_invalid perms h) refl

  -- A path with a NUL byte is refused before anything is written.
  pub write_nul :
      (tx : ℕ) (path value : List ℕ) (w : W)
      → has_nul path ≡ true
      → write W send_buf tx path value w ≡ (err Error.nul_byte_found_string, w)
  unfolding write
  write_nul tx path value w h = rw h refl

  -- `mknod` with permissions of which one is not none, read, write or both leaves the node that it
  -- has written behind: it fails after the write, in the state that the write has reached.
  pub mknod_invalid :
      (tx : ℕ) (path : List ℕ) (perms : List XsPermission) (w w' : W) (r : Bool)
      → HasInvalid perms
      → write_string W send_buf tx path [] w ≡ (ok r, w')
      → mknod W send_buf tx path perms w ≡ (err Error.invalid_permissions, w')
  unfolding mknod
  mknod_invalid tx path perms w w' r h e = rw e (rw (set_perms_invalid tx path perms w' h) refl)
