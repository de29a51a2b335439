-- ===== src/Xenstore/Bus/Delivery.antt =====
-- One request and its reply; one watch event and its watch.
use krata.Prelude.{
  ℕ, ◌<◌, ◌≡◌, refl, true, false, none, some, List, [], ◌∷◌, ◌++◌, length, ltb, if◌then◌else◌,
  arith, ok,
}
use krata.Prelude.Text.Decimal.{to_string, parse_u32-to_string}
use krata.Xenstore.Sys.{LittleEndianApi}
use krata.Xenstore.Message.{XsdMessage, parse_string_vec, compose}
use krata.Xenstore.Bus.{
  Bus, request_message, offer_event, watch_event, process_rx_message, is_watch_event, Event, run,
  update,
}

module _ (L : LittleEndianApi) where
  -- With a running processor and an empty queue, a request goes out as its message's bytes, and a
  -- reply with its id, which is no watch event, goes to its channel; the entry for the id is gone
  -- then.
  pub request_reply :
      (b : Bus) (tx typ : ℕ) (payload : List ℕ) (m : XsdMessage)
      → b.running ≡ true
      → b.tx_queue ≡ []
      → m.header.req ≡ b.next_request_id
      → is_watch_event m.header ≡ false
      → let b' =
          run L (Event.sends tx typ payload ∷ Event.flushes true ∷ Event.receives m ∷ []) b in
        (b'.written ≡ b.written ++ compose L (request_message b.next_request_id tx typ payload))
        × (b'.delivered ≡ (b.next_channel, m) ∷ b.delivered)
        × (b'.replies b.next_request_id ≡ none)
        × (b'.tx_queue ≡ [])
  unfolding run process_rx_message
  request_reply b tx typ payload m up idle same ordinary = ground arith

  -- A watch event whose token is the decimal id of a known watch adds its path to that watch's
  -- channel while the channel has room, is dropped otherwise, and changes nothing else.
  pub watch_event_lem :
      (b : Bus) (m : XsdMessage) (id : ℕ) (path : List ℕ) (queue more : List (List ℕ))
      → is_watch_event m.header ≡ true
      → parse_string_vec m ≡ ok (path ∷ to_string id ∷ more)
      → id < 4294967296
      → b.watches id ≡ some queue
      → process_rx_message m b ≡ (
          if ltb (length queue) 10
          then record b { watches = update b.watches id (some (queue ++ path ∷ [])) }
          else b)
  unfolding process_rx_message
  watch_event_lem b m id path queue more w p h q =
      rw (w, process_rx_message, p, watch_event, parse_u32-to_string id h, offer_event, q) refl
