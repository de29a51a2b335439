-- ===== src/Xenstore/Sys.antt =====
-- crates/xen/xenstore/src/sys.rs and error.rs: the header of a message on the wire, the message
-- types, and the errors. A header's fields are u32.
use krata.Prelude.{
  ℕ, ◌+◌, ◌*◌, ◌/◌, ◌%◌, ◌^◌, ◌<◌, ◌≡◌, refl, ap, ◌∙◌, append_assoc, Bool, false, Option, none,
  some, List, [], ◌∷◌, ◌++◌, length, arith, Outcome, ok, err, panic,
}
use krata.Prelude.Text.{bytes, bytes_eq}

pub data Error : Type 0 where
  io : Error
  invalid_bus_data : Error
  utf8_decode_string : Error
  utf8_decode_cstring : Error
  nul_byte_found_string : Error
  vec_nul_byte_not_found : Error
  parse_int : Error
  bus_not_found : Error
  response_error : List ℕ → Error
  invalid_permissions : Error
  receiver_error : Error
  send_error : Error
  try_send_error : Error

unfoldable pub is_noent_response : Error → Bool
is_noent_response (response_error message) = bytes_eq message (bytes "ENOENT")
is_noent_response _ = false

unfoldable pub is_again_response : Error → Bool
is_again_response (response_error message) = bytes_eq message (bytes "EAGAIN")
is_again_response _ = false

pub record XsdMessageHeader : Type 0 where
  pub typ : ℕ
  pub req : ℕ
  pub tx : ℕ
  pub len : ℕ

abbrev pub xsd_directory : ℕ
xsd_directory = 1

abbrev pub xsd_read : ℕ
xsd_read = 2

abbrev pub xsd_watch : ℕ
xsd_watch = 4

abbrev pub xsd_unwatch : ℕ
xsd_unwatch = 5

abbrev pub xsd_transaction_start : ℕ
xsd_transaction_start = 6

abbrev pub xsd_transaction_end : ℕ
xsd_transaction_end = 7

abbrev pub xsd_introduce : ℕ
xsd_introduce = 8

abbrev pub xsd_get_domain_path : ℕ
xsd_get_domain_path = 10

abbrev pub xsd_write : ℕ
xsd_write = 11

abbrev pub xsd_mkdir : ℕ
xsd_mkdir = 12

abbrev pub xsd_rm : ℕ
xsd_rm = 13

abbrev pub xsd_set_perms : ℕ
xsd_set_perms = 14

abbrev pub xsd_watch_event : ℕ
xsd_watch_event = 15

abbrev pub xsd_error : ℕ
xsd_error = 16

abbrev pub header_size : ℕ
header_size = 16

-- What the crate `byteorder` does of this: little-endian u32 values, written to the end of a buffer
-- and read from the front of one.
pub record LittleEndianApi : Type 0 where
  pub write_u32 : ℕ → List ℕ
  pub read_u32 : List ℕ → Option (ℕ × List ℕ)
  pub write_u32_lem :
      (n : ℕ)
      → n < 2 ^ 32
      → write_u32 n ≡ (n % 256) ∷ (n / 256 % 256) ∷ (n / 65536 % 256) ∷ (n / 16777216) ∷ []
  pub read_u32_lem :
      (b0 b1 b2 b3 : ℕ) (rest : List ℕ)
      → read_u32 (b0 ∷ b1 ∷ b2 ∷ b3 ∷ rest)
        ≡ some (b0 + b1 * 256 + b2 * 65536 + b3 * 16777216, rest)
  pub read_u32_short : (bs : List ℕ) → length bs < 4 → read_u32 bs ≡ none

infixl 5 ◌>>=◌
abbrev pub ◌>>=◌ {ℓ κ} :
    {A : Type ℓ} {B : Type κ} → Outcome Error A → (A → Outcome Error B) → Outcome Error B
ok a >>= f = f a
err e >>= f = err e
panic >>= f = panic

-- The end of the buffer is an i/o error.
abbrev pub or_eof {ℓ} : {A : Type ℓ} → Option A → Outcome Error A
or_eof none = err io
or_eof (some a) = ok a

module _ (L : LittleEndianApi) where
  open L use {write_u32, read_u32}

  pub decode : List ℕ → Outcome Error XsdMessageHeader
  decode bs = do
    (typ, c1) ← or_eof (read_u32 bs)
    (req, c2) ← or_eof (read_u32 c1)
    (tx, c3) ← or_eof (read_u32 c2)
    (len, c4) ← or_eof (read_u32 c3)
    ok (record { typ = typ; req = req; tx = tx; len = len })

  pub encode_to : XsdMessageHeader → List ℕ → List ℕ
  encode_to h buffer =
      (((buffer ++ write_u32 h.typ) ++ write_u32 h.req) ++ write_u32 h.tx) ++ write_u32 h.len

  pub encode : XsdMessageHeader → List ℕ
  unfolding encode_to
  encode h = encode_to h []

-- Every field is a u32.
pub record IsHeader (h : XsdMessageHeader) : Type 0 where
  pub typ_lt : h.typ < 2 ^ 32
  pub req_lt : h.req < 2 ^ 32
  pub tx_lt : h.tx < 2 ^ 32
  pub len_lt : h.len < 2 ^ 32

module _ (L : LittleEndianApi) where
  open L use {write_u32, read_u32}

  read_u32-write_u32 :
      (n : ℕ) (rest : List ℕ) → n < 2 ^ 32 → read_u32 (write_u32 n ++ rest) ≡ some (n, rest)
  read_u32-write_u32 n rest h = rw (L.write_u32_lem n h) (
      L.read_u32_lem (n % 256) (n / 256 % 256) (n / 65536 % 256) (n / 16777216) rest
      ∙ ap (λ t. some (t, rest)) (omega arith))

  -- The fields of the header, in their order, then what follows.
  pub encode-append :
      (h : XsdMessageHeader) (rest : List ℕ)
      → encode L h ++ rest
        ≡ write_u32 h.typ ++ (write_u32 h.req ++ (write_u32 h.tx ++ (write_u32 h.len ++ rest)))
  unfolding encode
  encode-append h rest = simp append_assoc

  pub length-encode : (h : XsdMessageHeader) → IsHeader h → length (encode L h) ≡ header_size
  unfolding encode
  length-encode h v = simp (
    L.write_u32_lem h.typ v.typ_lt,
    L.write_u32_lem h.req v.req_lt,
    L.write_u32_lem h.tx v.tx_lt,
    L.write_u32_lem h.len v.len_lt,
  )

  -- A header of u32 fields is read back from its bytes, whatever follows them.
  pub decode-encode :
      (h : XsdMessageHeader) (rest : List ℕ) → IsHeader h → decode L (encode L h ++ rest) ≡ ok h
  unfolding decode
  decode-encode h rest v =
      rw
        (
          encode-append h rest,
          read_u32-write_u32 h.typ _ v.typ_lt,
          read_u32-write_u32 h.req _ v.req_lt,
          read_u32-write_u32 h.tx _ v.tx_lt,
          read_u32-write_u32 h.len _ v.len_lt,
        )
        refl
