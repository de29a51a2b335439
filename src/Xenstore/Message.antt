-- ===== src/Xenstore/Message.antt =====
-- crates/xen/xenstore/src/bus.rs: a message, its payload read as strings, and the reader thread's
-- framing. A stream of bytes that ends is an i/o error of `read_exact`.
pub mod Strings
pub mod Framing
use krata.Prelude.{
  ℕ, zero, suc, ◌+◌, ◌≤◌, ◌<◌, ◌≡◌, Bool, true, false, Option, none, some, List, [], ◌∷◌, ◌++◌,
  length, take, drop, ltb, leb, ◌==◌, if◌then◌else◌, Outcome, ok, err, panic,
}
use krata.Prelude.Text.Utf8.{is_utf8}
use krata.Xenstore.Sys.{
  Error, XsdMessageHeader, LittleEndianApi, decode, encode, header_size, ◌>>=◌,
}

pub record XsdMessage : Type 0 where
  pub header : XsdMessageHeader
  pub payload : List ℕ

-- `CString::from_vec_with_nul` and `into_string`: one NUL, at the end, and the bytes before it are
-- UTF-8.
unfoldable pub split_nul : List ℕ → Option (List ℕ × List ℕ)
split_nul [] = none
split_nul (b ∷ bs) = elim (split_nul bs) [
  | none ↦ if b == 0 then some ([], bs) else none
  | some (front, rest) ↦ if b == 0 then some ([], bs) else some (b ∷ front, rest)
]

unfoldable pub cstring_of : List ℕ → Outcome Error (List ℕ)
unfolding split_nul
cstring_of bs = elim (split_nul bs) [
  | none ↦ err Error.vec_nul_byte_not_found
  | some (front, []) ↦ ok front
  | some (front, (c ∷ cs)) ↦ err Error.vec_nul_byte_not_found
]

unfoldable pub parse_string : XsdMessage → Outcome Error (List ℕ)
unfolding cstring_of
parse_string m = do
  s ← cstring_of m.payload
  if is_utf8 s then ok s else err Error.utf8_decode_cstring

-- The loop of `parse_string_vec`, with what it has gathered in `buffer` and `strings`.
unfoldable pub parse_strings : List ℕ → List ℕ → List (List ℕ) → Outcome Error (List (List ℕ))
parse_strings [] buffer strings = ok strings
parse_strings (b ∷ bs) buffer strings = elim (b == 0) [
  | true ↦ elim (is_utf8 buffer) [
    | true ↦ parse_strings bs [] (strings ++ buffer ∷ [])
    | false ↦ err Error.utf8_decode_string
  ]
  | false ↦ parse_strings bs (buffer ++ b ∷ []) strings
]

unfoldable pub parse_string_vec : XsdMessage → Outcome Error (List (List ℕ))
unfolding parse_strings
parse_string_vec m = parse_strings m.payload [] []

unfoldable pub parse_bool : XsdMessage → Outcome Error Bool
parse_bool m = ok true

-- The buffer that `send` fills: each item with a NUL after it.
unfoldable pub join_nul : List (List ℕ) → List ℕ
join_nul [] = []
join_nul (item ∷ items) = item ++ 0 ∷ join_nul items

abbrev pub max_payload_size : ℕ
max_payload_size = 4096

-- `read_exact` of `n` bytes, with the stream after them.
pub read_exact : ℕ → List ℕ → Outcome Error (List ℕ × List ℕ)
read_exact n stream =
    if ltb (length stream) n then err Error.io else ok (take n stream, drop n stream)

module _ (L : LittleEndianApi) where
  pub read_message : List ℕ → Outcome Error (XsdMessage × List ℕ)
  read_message stream = do
    (header_buffer, rest) ← read_exact header_size stream
    header ← decode L header_buffer
    (payload_buffer, rest') ←
        (if ltb max_payload_size header.len
          then err Error.invalid_bus_data
          else read_exact header.len rest)
    ok (record { header = header; payload = payload_buffer }, rest')

  -- `blocking_send`, which fails once the receiver is gone: after it has taken `room` messages.
  abbrev pub sent_on :
      XsdMessage → ℕ → (ℕ → List XsdMessage × Option Error) → List XsdMessage × Option Error
  sent_on m zero more = ([], some Error.send_error)
  sent_on m (suc room) more = let (ms, e) = more room in (m ∷ ms, e)

  -- `process_rx`: the messages that it hands on, and the error that ends it. A round takes a header
  -- at least, so the length of the stream is fuel enough.
  pub process_rx : ℕ → ℕ → List ℕ → List XsdMessage × Option Error
  process_rx zero room stream = ([], none)
  process_rx (suc fuel) room stream = elim (read_message stream) [
    | ok (m, rest) ↦ sent_on m room (λ r. process_rx fuel r rest)
    | err e ↦ ([], some e)
    | panic ↦ ([], none)
  ]

  -- What the processor writes for a message.
  pub compose : XsdMessage → List ℕ
  compose m = encode L m.header ++ m.payload
