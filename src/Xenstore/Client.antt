-- ===== src/Xenstore/Client.antt =====
-- crates/xen/xenstore/src/lib.rs: the operations of `XsdClient` and `XsdTransaction`. The connection
-- is a parameter: what `send_buf` answers, and the state of the store behind it. Both
-- implementations of `XsdInterface` pass a transaction id on: that of the client is 0.
pub mod Requests
pub mod Store
use krata.Prelude.{
  ℕ, ◌≡◌, Bool, true, false, ◌&&◌, not, Option, none, some, List, [], ◌∷◌, ◌++◌, ◌==◌,
  if◌then◌else◌, Outcome, ok, err, panic,
}
use krata.Prelude.Effect.{Action, continue, ◌>>=◌, ◌>>◌, pure, raise, raise_if, lift}
use krata.Prelude.Text.{bytes}
use krata.Prelude.Text.Decimal.{parse_u32, to_string}
use krata.Prelude.Text.Utf8.{is_utf8}
use krata.Xenstore.Sys.{
  Error, is_noent_response, is_again_response, xsd_directory, xsd_read, xsd_watch,
  xsd_transaction_start, xsd_transaction_end, xsd_introduce, xsd_get_domain_path, xsd_write,
  xsd_mkdir, xsd_rm, xsd_set_perms,
}
use krata.Xenstore.Message.{XsdMessage, join_nul, parse_string, parse_string_vec, parse_bool}

abbrev pub xs_perm_none : ℕ
xs_perm_none = 0

abbrev pub xs_perm_read : ℕ
xs_perm_read = 1

abbrev pub xs_perm_write : ℕ
xs_perm_write = 2

abbrev pub xs_perm_read_write : ℕ
xs_perm_read_write = 3

pub record XsPermission : Type 0 where
  pub id : ℕ
  pub perms : ℕ

unfoldable pub perm_letter : ℕ → Option ℕ
perm_letter perms =
    if perms == xs_perm_read_write
    then some b'b'
    else if perms == xs_perm_write
    then some b'w'
    else if perms == xs_perm_read
    then some b'r'
    else if perms == xs_perm_none
    then some b'n'
    else none

unfoldable pub encode_perm : XsPermission → Outcome Error (List ℕ)
unfolding perm_letter
encode_perm p = elim (perm_letter p.perms) [
  | none ↦ err Error.invalid_permissions
  | some c ↦ ok (c ∷ to_string p.id)
]

unfoldable pub encode_perms : List XsPermission → Outcome Error (List (List ℕ))
encode_perms [] = ok []
encode_perms (p ∷ ps) =
    let rest = encode_perms ps in
    elim (encode_perm p) [
      | ok s ↦ elim rest [ ok ss ↦ ok (s ∷ ss) | err e ↦ err e | panic ↦ panic ]
      | err e ↦ err e
      | panic ↦ panic
    ]

-- `CString::new` refuses a NUL byte.
unfoldable pub has_nul : List ℕ → Bool
has_nul [] = false
has_nul (b ∷ bs) = if b == 0 then true else has_nul bs

module _ (W : Type 0) (send_buf : ℕ → ℕ → List ℕ → Action W Error XsdMessage) where
  unfoldable pub send : ℕ → ℕ → List (List ℕ) → Action W Error XsdMessage
  send tx typ payload = send_buf tx typ (join_nul payload)

  -- An answer `ENOENT` stands for the value `a`; any other is read by `f`.
  abbrev pub or_noent :
      {A : Type 0} → A → (XsdMessage → Outcome Error A) → Outcome Error XsdMessage → Outcome Error A
  or_noent a f (ok response) = f response
  or_noent a f (err e) = if is_noent_response e then ok a else err e
  or_noent a f panic = panic

  abbrev pub read_reply :
      {A : Type 0}
      → (Outcome Error XsdMessage → Outcome Error A)
      → Outcome Error XsdMessage × W
      → Outcome Error A × W
  read_reply f (r, w) = (f r, w)

  unfoldable pub list : ℕ → List ℕ → Action W Error (List (List ℕ))
  unfolding send is_noent_response
  list tx path w = read_reply (or_noent [] parse_string_vec) (send tx xsd_directory (path ∷ []) w)

  unfoldable pub read : ℕ → List ℕ → Action W Error (Option (List ℕ))
  unfolding send is_noent_response
  read tx path w =
      read_reply (or_noent none (λ response. ok (some response.payload)))
        (send tx xsd_read (path ∷ []) w)

  -- `String::from_utf8` of what was read.
  abbrev pub as_text : Option (List ℕ) → Outcome Error (Option (List ℕ))
  as_text none = ok none
  as_text (some value) = if is_utf8 value then ok (some value) else err Error.utf8_decode_string

  unfoldable pub read_string : ℕ → List ℕ → Action W Error (Option (List ℕ))
  unfolding read
  read_string tx path = do value ← read tx path; lift (as_text value)

  unfoldable pub write : ℕ → List ℕ → List ℕ → Action W Error Bool
  unfolding has_nul parse_bool
  write tx path value = do
    raise_if (has_nul path) Error.nul_byte_found_string
    response ← send_buf tx xsd_write (path ++ 0 ∷ value)
    lift (parse_bool response)

  unfoldable pub write_string : ℕ → List ℕ → List ℕ → Action W Error Bool
  unfolding write
  write_string tx path value = write tx path value

  unfoldable pub mkdir : ℕ → List ℕ → Action W Error Bool
  unfolding send parse_bool
  mkdir tx path = do response ← send tx xsd_mkdir (path ∷ []); lift (parse_bool response)

  unfoldable pub rm : ℕ → List ℕ → Action W Error Bool
  unfolding send is_noent_response parse_bool
  rm tx path w = read_reply (or_noent true parse_bool) (send tx xsd_rm (path ∷ []) w)

  unfoldable pub set_perms : ℕ → List ℕ → List XsPermission → Action W Error Bool
  unfolding send parse_bool
  set_perms tx path perms = do
    items ← lift (encode_perms perms)
    response ← send tx xsd_set_perms (path ∷ items)
    lift (parse_bool response)

  unfoldable pub mknod : ℕ → List ℕ → List XsPermission → Action W Error Bool
  unfolding write_string set_perms
  mknod tx path perms = do
    result1 ← write_string tx path []
    result2 ← set_perms tx path perms
    pure (result1 && result2)

  abbrev pub as_u32 : List ℕ → Outcome Error ℕ
  as_u32 s = elim (parse_u32 s) [ none ↦ err Error.parse_int | some n ↦ ok n ]

  -- The id of the transaction that the store has begun.
  unfoldable pub transaction : Action W Error ℕ
  unfolding send
  transaction = do
    response ← send 0 xsd_transaction_start ([] ∷ [])
    s ← lift (parse_string response)
    lift (as_u32 s)

  unfoldable pub get_domain_path : ℕ → Action W Error (List ℕ)
  unfolding send
  get_domain_path domid = do
    response ← send 0 xsd_get_domain_path (to_string domid ∷ [])
    lift (parse_string response)

  unfoldable pub introduce_domain : ℕ → ℕ → ℕ → Action W Error Bool
  unfolding send parse_bool
  introduce_domain domid mfn evtchn = do
    response ← send 0 xsd_introduce (to_string domid ∷ to_string mfn ∷ to_string evtchn ∷ [])
    lift (parse_bool response)

  unfoldable pub bind_watch_id : ℕ → List ℕ → Action W Error (Unit {0})
  unfolding send
  bind_watch_id id path = do send 0 xsd_watch (path ∷ to_string id ∷ []); pure tt

  unfoldable pub end_transaction : ℕ → Bool → Action W Error Bool
  unfolding send parse_bool
  end_transaction tx abort = do
    response ← send tx xsd_transaction_end ((if abort then bytes "F" else bytes "T") ∷ [])
    lift (parse_bool response)

  -- A commit that the store answers with `EAGAIN` is to be tried again.
  abbrev pub or_again : Outcome Error Bool → Outcome Error Bool
  or_again (ok result) = ok result
  or_again (err e) = if is_again_response e then ok false else err e
  or_again panic = panic

  abbrev pub map_outcome : Outcome Error Bool × W → Outcome Error Bool × W
  map_outcome (r, w) = (or_again r, w)

  unfoldable pub maybe_commit : ℕ → Action W Error Bool
  unfolding end_transaction is_again_response
  maybe_commit tx w = map_outcome (end_transaction tx false w)

  unfoldable pub commit : ℕ → Action W Error Bool
  unfolding end_transaction
  commit tx = end_transaction tx false

  unfoldable pub abort : ℕ → Action W Error Bool
  unfolding end_transaction
  abort tx = end_transaction tx true
