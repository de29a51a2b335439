-- ===== src/Xenstore/Bus.antt =====
-- crates/xen/xenstore/src/bus.rs: the state that a `XsdSocket` shares with its processor task, as the
-- calls of clients, the processor's rounds and the dropped watches change it in turn. A oneshot
-- channel is a number; a map from ids is a function. A client's call up to its `try_send` is one
-- step, and so is a round of the processor: that two calls may draw their ids in one order and
-- register in the other is not modelled.
-- The channel of a watch that was dropped still takes events here, which nobody reads; the code's send
-- to it fails, and is ignored.
pub mod Channels
pub mod Routing
pub mod Delivery
use krata.Prelude.{
  ℕ, zero, suc, ◌+◌, ◌%◌, ◌^◌, ◌<◌, ◌≡◌, Bool, true, false, ◌&&◌, Option, none, some, List, [], ◌∷◌,
  ◌++◌, length, ltb, ◌==◌, if◌then◌else◌, Outcome, ok, err, panic,
}
use krata.Prelude.Text.Decimal.{parse_u32, to_string}
use krata.Prelude.Text.Utf8.{is_utf8}
use krata.Xenstore.Sys.{
  Error, XsdMessageHeader, LittleEndianApi, encode, ◌>>=◌, xsd_error, xsd_unwatch, xsd_watch_event,
}
use krata.Xenstore.Message.{XsdMessage, cstring_of, parse_string_vec, join_nul, compose}

abbrev pub channel_capacity : ℕ
channel_capacity = 10

abbrev pub unwatch_capacity : ℕ
unwatch_capacity = 1000

-- `wrapping_add` on u32.
abbrev pub next_id : ℕ → ℕ
next_id id = (id + 1) % 2 ^ 32

-- `HashMap::insert` and `remove`.
abbrev pub update {ℓ} : {A : Type ℓ} → (ℕ → Option A) → ℕ → Option A → ℕ → Option A
update m k v j = if j == k then v else m j

pub record Bus : Type 0 where
  pub next_request_id : ℕ
  pub next_watch_id : ℕ
  -- The number of the next oneshot channel, and the request message that each was made for.
  pub next_channel : ℕ
  pub sent : ℕ → Option XsdMessage
  -- The channel that waits for the reply to a request.
  pub replies : ℕ → Option ℕ
  -- The paths that wait in the channel of a watch, oldest first.
  pub watches : ℕ → Option (List (List ℕ))
  pub tx_queue : List XsdMessage
  pub unwatch_queue : List (ℕ × List ℕ)
  -- What the processor has written to the handle, and the replies that it has sent to channels, the
  -- newest first.
  pub written : List ℕ
  pub delivered : List (ℕ × XsdMessage)
  -- The processor's loop goes on.
  pub running : Bool

-- `from_handle`.
pub from_handle : Bus
from_handle = record {
  next_request_id = 0;
  next_watch_id = 0;
  next_channel = 0;
  sent = λ _. none;
  replies = λ _. none;
  watches = λ _. none;
  tx_queue = [];
  unwatch_queue = [];
  written = [];
  delivered = [];
  running = true;
}

pub request_message : ℕ → ℕ → ℕ → List ℕ → XsdMessage
request_message req tx typ payload = record {
  header = record { typ = typ; req = req; tx = tx; len = length payload % 2 ^ 32 };
  payload = payload;
}

-- `send_buf` up to `try_send`: the channel that it waits on, unless the queue is full or closed. The
-- entry in `replies` is made before, and stays.
pub send_buf : ℕ → ℕ → List ℕ → Bus → Outcome Error ℕ × Bus
unfolding request_message
send_buf tx typ payload b =
    let req = b.next_request_id in
    let channel = b.next_channel in
    let message = request_message req tx typ payload in
    let waiting = record b {
      next_request_id = next_id req;
      next_channel = suc channel;
      sent = update b.sent channel (some message);
      replies = update b.replies req (some channel);
    } in
    if b.running && ltb (length b.tx_queue) channel_capacity
    then (ok channel, record waiting { tx_queue = b.tx_queue ++ message ∷ [] })
    else (err Error.try_send_error, waiting)

-- `send_buf` once its channel has the reply.
pub reply_result : XsdMessage → Outcome Error XsdMessage
unfolding cstring_of
reply_result reply =
    if reply.header.typ == xsd_error
    then (do
      message ← cstring_of reply.payload
      if is_utf8 message then err (Error.response_error message) else err Error.utf8_decode_cstring)
    else ok reply

pub send : ℕ → ℕ → List (List ℕ) → Bus → Outcome Error ℕ × Bus
unfolding send_buf
send tx typ payload b = send_buf tx typ (join_nul payload) b

pub add_watch : Bus → ℕ × Bus
add_watch b = (
  b.next_watch_id,
  record b {
    next_watch_id = next_id b.next_watch_id;
    watches = update b.watches b.next_watch_id (some []);
  },
)

-- The drop of a watch handle: `try_send` of the id and the path, its failure ignored.
pub drop_watch : ℕ → List ℕ → Bus → Bus
drop_watch id path b =
    if b.running && ltb (length b.unwatch_queue) unwatch_capacity
    then record b { unwatch_queue = b.unwatch_queue ++ (id, path) ∷ [] }
    else b

-- `process` returns: the task ends and its ends of the channels are dropped.
pub stop : Bus → Bus
stop b = record b { running = false; tx_queue = []; unwatch_queue = [] }

pub offer_event : ℕ → List ℕ → Bus → Bus
offer_event id path b = elim (b.watches id) [
  | none ↦ b
  | some queue ↦
      if ltb (length queue) channel_capacity
      then record b { watches = update b.watches id (some (queue ++ path ∷ [])) }
      else b
]

pub watch_event : List (List ℕ) → Bus → Bus
unfolding stop offer_event
watch_event [] b = stop b
watch_event (path ∷ []) b = stop b
watch_event (path ∷ token ∷ more) b = elim (parse_u32 token) [
  | none ↦ stop b
  | some id ↦ offer_event id path b
]

unfoldable pub is_watch_event : XsdMessageHeader → Bool
is_watch_event h = h.typ == xsd_watch_event && h.req == 0 && h.tx == 0

pub dispatch_reply : XsdMessage → Bus → Bus
dispatch_reply m b = elim (b.replies m.header.req) [
  | none ↦ b
  | some channel ↦ record b {
    replies = update b.replies m.header.req none;
    delivered = (channel, m) ∷ b.delivered;
  }
]

-- The three arms of `process`. A write that fails ends the loop.
pub process_rx_message : XsdMessage → Bus → Bus
unfolding is_watch_event watch_event dispatch_reply
process_rx_message m b = elim (is_watch_event m.header) [
  | true ↦ elim (parse_string_vec m) [
    | ok strings ↦ watch_event strings b
    | err e ↦ stop b
    | panic ↦ stop b
  ]
  | false ↦ dispatch_reply m b
]

module _ (L : LittleEndianApi) where
  pub process_tx : Bool → List XsdMessage → Bus → Bus
  unfolding stop
  process_tx write_ok [] b = b
  process_tx true (m ∷ queue) b = record b { tx_queue = queue; written = b.written ++ compose L m }
  process_tx false (m ∷ queue) b = stop b

  pub unwatch_payload : ℕ → List ℕ → List ℕ
  unwatch_payload id path = ((to_string id ++ 0 ∷ []) ++ path) ++ 0 ∷ []

  pub process_unwatch : Bool → List (ℕ × List ℕ) → Bus → Bus
  unfolding unwatch_payload stop request_message
  process_unwatch write_ok [] b = b
  process_unwatch true ((id, path) ∷ queue) b = record b {
    next_request_id = next_id b.next_request_id;
    unwatch_queue = queue;
    written =
        b.written
        ++ compose L (request_message b.next_request_id 0 xsd_unwatch (unwatch_payload id path));
  }
  process_unwatch false ((id, path) ∷ queue) b =
      stop (record b { next_request_id = next_id b.next_request_id })

  -- What can happen next: a client's call, a dropped watch, or an arm of the processor's `select!`.
  pub data Event : Type 0 where
    sends : (tx typ : ℕ) → (payload : List ℕ) → Event
    watches : Event
    drops : (id : ℕ) → (path : List ℕ) → Event
    flushes : (write_ok : Bool) → Event
    receives : XsdMessage → Event
    closes : Event
    unwatches : (write_ok : Bool) → Event

  abbrev pub if_running : Bus → Bus → Bus
  if_running b b' = if b.running then b' else b

  pub step : Event → Bus → Bus
  unfolding send_buf add_watch drop_watch process_tx process_rx_message process_unwatch stop
  step (sends tx typ payload) b = (send_buf tx typ payload b).1
  step watches b = (add_watch b).1
  step (drops id path) b = drop_watch id path b
  step (flushes write_ok) b = if_running b (process_tx write_ok b.tx_queue b)
  step (receives m) b = if_running b (process_rx_message m b)
  step closes b = if_running b (stop b)
  step (unwatches write_ok) b = if_running b (process_unwatch write_ok b.unwatch_queue b)

  pub run : List Event → Bus → Bus
  unfolding step
  run [] b = b
  run (e ∷ es) b = run es (step e b)
