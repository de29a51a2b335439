-- ===== src/Xenstore/Message/Framing.antt =====
-- The reader thread's framing: `read_message` and `process_rx` against `compose`.
use krata.Prelude.{
  true, false, ℕ, zero, suc, ◌≤◌, ◌<◌, ◌≡◌, refl, sym, append-nil, Option, some, List, [], ◌∷◌,
  ◌++◌, append_assoc, arith, All, length, length-append, take-append, take, leb, if◌then◌else◌,
  drop-append, ok, err,
}
use krata.Xenstore.Sys.{
  Error, XsdMessageHeader, IsHeader, LittleEndianApi, header_size, decode, encode, decode-encode,
  length-encode,
}
use krata.Xenstore.Message.{
  XsdMessage, read_message, process_rx, compose, max_payload_size, read_exact,
}

-- The header's length is the payload's, and the reader's buffer holds it.
pub record IsFramed (m : XsdMessage) : Type 0 where
  pub header_valid : IsHeader m.header
  pub len_eq : m.header.len ≡ length m.payload
  pub fits : length m.payload ≤ max_payload_size

read_exact-append :
    (n : ℕ) (xs rest : List ℕ) → n ≡ length xs → read_exact n (xs ++ rest) ≡ ok (xs, rest)
unfolding read_exact
read_exact-append n xs rest h =
    rw (h, take-append xs rest, drop-append xs rest) (ground (arith, length-append xs rest))

module _ (L : LittleEndianApi) where
  -- A framed message is read back from its bytes, and the stream goes on behind it.
  pub read_message-compose :
      (m : XsdMessage) (rest : List ℕ)
      → IsFramed m
      → read_message L (compose L m ++ rest) ≡ ok (m, rest)
  unfolding read_message compose
  read_message-compose m rest v =
      rw
        (
          append_assoc (encode L m.header) m.payload rest,
          read_exact-append header_size (encode L m.header) (m.payload ++ rest)
              (sym (length-encode L m.header v.header_valid)),
          decoded,
        )
        (ground (arith, v.len_eq, read_exact-append m.header.len m.payload rest v.len_eq))
    where
      decoded : decode L (encode L m.header) ≡ ok m.header
      decoded = rw (← append-nil (encode L m.header)) (decode-encode L m.header [] v.header_valid)

  pub compose_all : List XsdMessage → List ℕ
  compose_all [] = []
  compose_all (m ∷ ms) = compose L m ++ compose_all ms

  -- A header of u32 fields that announces more than the buffer holds is refused, whatever comes
  -- after it.
  pub read_message_too_long :
      (h : XsdMessageHeader) (rest : List ℕ)
      → IsHeader h
      → max_payload_size < h.len
      → read_message L (encode L h ++ rest) ≡ err Error.invalid_bus_data
  unfolding read_message
  read_message_too_long h rest v long =
      rw
        (
          read_exact-append header_size (encode L h) rest (sym (length-encode L h v)),
          rw (append-nil (encode L h)) at (decode-encode L h [] v),
        )
        (ground arith)

  -- With fuel for one round more than there are messages, the reader hands on the messages of a
  -- stream of framed messages, in their order: all of them, with an i/o error at the end of the
  -- stream, or as many as are taken before the receiver is gone, with the error of sending.
  pub process_rx-compose :
      (fuel room : ℕ) (ms : List XsdMessage)
      → All IsFramed ms
      → length ms < fuel
      → process_rx L fuel room (compose_all ms)
        ≡ (take room ms, some (if leb (length ms) room then Error.io else Error.send_error))
  unfolding process_rx compose_all
  process_rx-compose zero room ms v h = absurd (omega arith)
  process_rx-compose (suc fuel) room [] v h = rw (end_of_stream, process_rx) (at_end room)
    where
      end_of_stream : read_message L [] ≡ err Error.io
      end_of_stream = unfold read_message read_exact in refl

      at_end :
          (room : ℕ)
          → ◌≡◌ {A = List XsdMessage × Option Error}
              ([], some Error.io)
              (take room [], some (if leb 0 room then Error.io else Error.send_error))
      at_end zero = refl
      at_end (suc room) = let t : leb 0 (suc room) ≡ true = ground arith in rw t refl
  process_rx-compose (suc fuel) zero (m ∷ ms) v h =
      let t : leb (suc (length ms)) 0 ≡ false = ground arith in
      rw (read_message-compose m (compose_all ms) v.0, t, process_rx) refl
  process_rx-compose (suc fuel) (suc room) (m ∷ ms) v h =
      let same : leb (suc (length ms)) (suc room) ≡ leb (length ms) room = ground arith in
      rw (read_message-compose m (compose_all ms) v.0, process_rx)
        (rw (process_rx-compose fuel room ms v.1 (omega arith), same) refl)
