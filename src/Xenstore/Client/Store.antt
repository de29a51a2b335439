-- ===== src/Xenstore/Client/Store.antt =====
-- The client in front of a store that keeps what it is told: reads after writes and removals.
use krata.Prelude.{
  ℕ, ◌≡◌, refl, true, false, Option, none, some, List, [], ◌∷◌, ◌++◌, ok, err, inl, inr,
  Option-cases,
}
use krata.Prelude.Effect.{Action}
use krata.Prelude.Text.{bytes}
use krata.Prelude.Text.Utf8.{is_utf8}
use krata.Xenstore.Sys.{Error, xsd_read, xsd_write, xsd_rm, xsd_set_perms}
use krata.Xenstore.Message.{XsdMessage, join_nul}
use krata.Xenstore.Client.{
  XsPermission, encode_perms, has_nul, read, read_string, write, write_string, rm, mknod,
}

abbrev pub enoent : Error
enoent = Error.response_error (bytes "ENOENT")

-- A store, as the protocol describes it: `contents` is what a transaction sees at a path.
pub record IsStore (W : Type 0) (send_buf : ℕ → ℕ → List ℕ → Action W Error XsdMessage)
    (contents : W → ℕ → List ℕ → Option (List ℕ)) : Type 0 where
  pub written :
      (tx : ℕ) (path value : List ℕ) (w : W)
      → has_nul path ≡ false
      → (m : XsdMessage) × (w' : W) × (send_buf tx xsd_write (path ++ 0 ∷ value) w ≡ (ok m, w'))
        × (contents w' tx path ≡ some value)
  pub found :
      (tx : ℕ) (path value : List ℕ) (w : W)
      → has_nul path ≡ false
      → contents w tx path ≡ some value
      → (m : XsdMessage) × (send_buf tx xsd_read (join_nul (path ∷ [])) w ≡ (ok m, w))
        × (m.payload ≡ value)
  pub missing :
      (tx : ℕ) (path : List ℕ) (w : W)
      → has_nul path ≡ false
      → contents w tx path ≡ none
      → send_buf tx xsd_read (join_nul (path ∷ [])) w ≡ (err enoent, w)
  pub removed :
      (tx : ℕ) (path value : List ℕ) (w : W)
      → has_nul path ≡ false
      → contents w tx path ≡ some value
      → (m : XsdMessage) × (w' : W) × (send_buf tx xsd_rm (join_nul (path ∷ [])) w ≡ (ok m, w'))
        × (contents w' tx path ≡ none)
  pub not_removed :
      (tx : ℕ) (path : List ℕ) (w : W)
      → has_nul path ≡ false
      → contents w tx path ≡ none
      → send_buf tx xsd_rm (join_nul (path ∷ [])) w ≡ (err enoent, w)
  pub permitted :
      (tx : ℕ) (path value : List ℕ) (items : List (List ℕ)) (w : W)
      → has_nul path ≡ false
      → contents w tx path ≡ some value
      → (m : XsdMessage) × (w' : W) × (send_buf tx xsd_set_perms (join_nul (path ∷ items)) w
          ≡ (ok m, w'))
        × (contents w' tx path ≡ some value)

module _ (W : Type 0) (send_buf : ℕ → ℕ → List ℕ → Action W Error XsdMessage)
    (contents : W → ℕ → List ℕ → Option (List ℕ)) (store : IsStore W send_buf contents) where
  pub read_found :
      (tx : ℕ) (path value : List ℕ) (w : W)
      → has_nul path ≡ false
      → contents w tx path ≡ some value
      → read W send_buf tx path w ≡ (ok (some value), w)
  unfolding read
  read_found tx path value w clean c =
      let (m, e, p) = store.found tx path value w clean c in rw (e, p) refl

  read_missing :
      (tx : ℕ) (path : List ℕ) (w : W)
      → has_nul path ≡ false
      → contents w tx path ≡ none
      → read W send_buf tx path w ≡ (ok none, w)
  unfolding read
  read_missing tx path w clean c = rw (store.missing tx path w clean c) refl

  -- Over a store with the laws of `IsStore`, what `write` stores at a path without NUL bytes,
  -- `read` gives back.
  pub read-write :
      (tx : ℕ) (path value : List ℕ) (w : W)
      → has_nul path ≡ false
      → let (r, w') = write W send_buf tx path value w in
        (r ≡ ok true) × (read W send_buf tx path w' ≡ (ok (some value), w'))
  unfolding write
  read-write tx path value w clean =
      let (m, w', e, c) = store.written tx path value w clean in
      rw (clean, e) (refl, read_found tx path value w' clean c)

  read_text :
      (tx : ℕ) (path value : List ℕ) (w : W)
      → is_utf8 value ≡ true
      → read W send_buf tx path w ≡ (ok (some value), w)
      → read_string W send_buf tx path w ≡ (ok (some value), w)
  unfolding read_string
  read_text tx path value w text e = rw (e, text) refl

  -- Over a store with the laws of `IsStore`, UTF-8 text that `write_string` stores at a path
  -- without NUL bytes, `read_string` gives back.
  pub read_string-write_string :
      (tx : ℕ) (path value : List ℕ) (w : W)
      → has_nul path ≡ false
      → is_utf8 value ≡ true
      → let (r, w') = write_string W send_buf tx path value w in
        (r ≡ ok true) × (read_string W send_buf tx path w' ≡ (ok (some value), w'))
  unfolding write_string
  read_string-write_string tx path value w clean text =
      let (a, b) = read-write tx path value w clean in (a, read_text tx path value _ text b)

  rm_missing :
      (tx : ℕ) (path : List ℕ) (w : W)
      → has_nul path ≡ false
      → contents w tx path ≡ none
      → rm W send_buf tx path w ≡ (ok true, w)
  unfolding rm
  rm_missing tx path w clean c = rw (store.not_removed tx path w clean c) refl

  rm_found :
      (tx : ℕ) (path value : List ℕ) (w : W)
      → has_nul path ≡ false
      → contents w tx path ≡ some value
      → (w' : W) × (rm W send_buf tx path w ≡ (ok true, w')) × (contents w' tx path ≡ none)
  unfolding rm
  rm_found tx path value w clean c =
      let (m, w', e, c') = store.removed tx path value w clean c in (w', rw e refl, c')

  -- Over a store with the laws of `IsStore` and at a path without NUL bytes, `rm` answers true
  -- whether or not the node is there; afterwards it is not, and a second `rm` answers true again
  -- and changes nothing.
  pub rm_lem :
      (tx : ℕ) (path : List ℕ) (w : W)
      → has_nul path ≡ false
      → let (r, w') = rm W send_buf tx path w in
        (r ≡ ok true)
        × (read W send_buf tx path w' ≡ (ok none, w'))
        × (rm W send_buf tx path w' ≡ (ok true, w'))
  rm_lem tx path w clean = elim (Option-cases (contents w tx path)) [
    | inl c ↦
        rw (rm_missing tx path w clean c)
          (refl, read_missing tx path w clean c, rm_missing tx path w clean c)
    | inr (value, c) ↦
        let (w', e, c') = rm_found tx path value w clean c in
        rw e (refl, read_missing tx path w' clean c', rm_missing tx path w' clean c')
  ]

  -- Over a store with the laws of `IsStore`, `mknod` at a path without NUL bytes, with permissions
  -- that have letters, leaves an empty node.
  pub mknod_lem :
      (tx : ℕ) (path : List ℕ) (perms : List XsPermission) (items : List (List ℕ)) (w : W)
      → has_nul path ≡ false
      → encode_perms perms ≡ ok items
      → let (r, w') = mknod W send_buf tx path perms w in
        (r ≡ ok true) × (read W send_buf tx path w' ≡ (ok (some []), w'))
  unfolding mknod
  mknod_lem tx path perms items w clean enc =
      let (m, w', e, c) = store.written tx path [] w clean in
      let (m', w'', e', c') = store.permitted tx path [] items w' clean c in
      rw (clean, e, enc, e') (refl, read_found tx path [] w'' clean c')
