-- ===== src/Xenstore/Bus/Routing.antt =====
-- Replies reach the call that made the request.
use krata.Prelude.{
  ℕ, suc, ◌≡◌, ◌≢◌, sym, ap, subst, ◌∙◌, Bool, true, false, ◌&&◌, none, some, List, [], ◌∷◌, All,
  All-map, All-append, ◌++◌, refl, length, ltb, if◌then◌else◌, arith, Outcome, ok, err, panic, inl,
  inr, Bool-cases, Option-cases,
}
use krata.Xenstore.Sys.{Error, LittleEndianApi}
use krata.Prelude.Text.Decimal.{parse_u32}
use krata.Xenstore.Message.{XsdMessage, parse_string_vec}
use krata.Xenstore.Bus.{
  Bus, update, request_message, send_buf, stop, offer_event, watch_event, dispatch_reply,
  process_rx_message, is_watch_event, process_tx, process_unwatch, Event, step, run, from_handle,
}
use krata.Xenstore.Bus.Channels.{
  IsCallOf, IsRequest, Routed, IsRouted, update_newest, open_channel, close_channel,
}

-- The loop ends: nothing is queued any more.
stop-IsRouted : (b : Bus) → IsRouted b → IsRouted (stop b)
unfolding stop
stop-IsRouted b v = record {
  waiting = v.waiting;
  queued = tt;
  answered = v.answered;
  once = v.once;
  kept = v.kept;
}

if_IsRouted : (t : Bool) (b b' : Bus) → IsRouted b → IsRouted b' → IsRouted (if t then b' else b)
if_IsRouted true b b' v v' = v'
if_IsRouted false b b' v v' = v

send_buf-IsRouted :
    (tx typ : ℕ) (payload : List ℕ) (b : Bus) → IsRouted b → IsRouted (send_buf tx typ payload b).1
unfolding send_buf
send_buf-IsRouted tx typ payload b v = elim (Bool-cases (b.running && ltb (length b.tx_queue) 10)) [
  | inl go ↦ rw go (queue_up (opened v))
  | inr no_room ↦ rw no_room (opened v)
]
  where
    message : XsdMessage
    message = request_message b.next_request_id tx typ payload

    opened :
        IsRouted b
        → Routed
            (suc b.next_channel)
            (update b.sent b.next_channel (some message))
            (update b.replies b.next_request_id (some b.next_channel))
            b.tx_queue
            b.delivered
    opened v =
        unfold request_message in
        open_channel b.next_channel message b.sent b.replies b.tx_queue b.delivered v

    queue_up :
        Routed
          (suc b.next_channel)
          (update b.sent b.next_channel (some message))
          (update b.replies b.next_request_id (some b.next_channel))
          b.tx_queue
          b.delivered
        → Routed
            (suc b.next_channel)
            (update b.sent b.next_channel (some message))
            (update b.replies b.next_request_id (some b.next_channel))
            (b.tx_queue ++ message ∷ [])
            b.delivered
    queue_up o = record {
      waiting = o.waiting;
      queued =
          All-append (IsRequest (suc b.next_channel) (update b.sent b.next_channel (some message)))
            b.tx_queue (message ∷ []) o.queued
            ((b.next_channel, omega arith, update_newest b.next_channel b.sent message), tt);
      answered = o.answered;
      once = o.once;
      kept = o.kept;
    }

dispatch_reply-IsRouted : (m : XsdMessage) (b : Bus) → IsRouted b → IsRouted (dispatch_reply m b)
unfolding dispatch_reply
dispatch_reply-IsRouted m b v = elim (Option-cases (b.replies m.header.req)) [
  | inl e ↦ rw (e, dispatch_reply) v
  | inr (c, e) ↦
      rw (e, dispatch_reply)
        (close_channel b.next_channel c m b.sent b.replies b.tx_queue b.delivered e v)
]

offer_event-IsRouted :
    (id : ℕ) (path : List ℕ) (b : Bus) → IsRouted b → IsRouted (offer_event id path b)
unfolding offer_event
offer_event-IsRouted id path b v = elim (Option-cases (b.watches id)) [
  | inl e ↦ rw (e, offer_event) v
  | inr (queue, e) ↦ rw (e, offer_event) (if_IsRouted (ltb (length queue) 10) b _ v v)
]

watch_event-IsRouted :
    (strings : List (List ℕ)) (b : Bus) → IsRouted b → IsRouted (watch_event strings b)
unfolding watch_event
watch_event-IsRouted [] b v = stop-IsRouted b v
watch_event-IsRouted (path ∷ []) b v = stop-IsRouted b v
watch_event-IsRouted (path ∷ token ∷ more) b v = elim (Option-cases (parse_u32 token)) [
  | inl e ↦ rw (e, watch_event) (stop-IsRouted b v)
  | inr (id, e) ↦ rw (e, watch_event) (offer_event-IsRouted id path b v)
]

event_or_stop :
    (r : Outcome Error (List (List ℕ))) (b : Bus)
    → IsRouted b
    → IsRouted (elim r [ ok strings ↦ watch_event strings b | err e ↦ stop b | panic ↦ stop b ])
unfolding stop
event_or_stop (ok strings) b v = watch_event-IsRouted strings b v
event_or_stop (err e) b v = stop-IsRouted b v
event_or_stop panic b v = stop-IsRouted b v

process_rx_message-IsRouted :
    (m : XsdMessage) (b : Bus) → IsRouted b → IsRouted (process_rx_message m b)
unfolding process_rx_message
process_rx_message-IsRouted m b v = elim (Bool-cases (is_watch_event m.header)) [
  | inl e ↦ rw (e, process_rx_message) (event_or_stop (parse_string_vec m) b v)
  | inr e ↦ rw (e, process_rx_message) (dispatch_reply-IsRouted m b v)
]

-- An event is given to no channel of a call.
offer_event_delivered :
    (id : ℕ) (path : List ℕ) (b : Bus) → (offer_event id path b).delivered ≡ b.delivered
unfolding offer_event
offer_event_delivered id path b = elim (Option-cases (b.watches id)) [
  | inl e ↦ rw (e, offer_event) refl
  | inr (queue, e) ↦ rw (e, offer_event) (by_room (ltb (length queue) 10) _ refl)
]
  where
    by_room :
        (t : Bool) (b' : Bus)
        → b'.delivered ≡ b.delivered
        → (if t then b' else b).delivered ≡ b.delivered
    by_room true b' e = e
    by_room false b' e = refl

watch_event_delivered :
    (strings : List (List ℕ)) (b : Bus) → (watch_event strings b).delivered ≡ b.delivered
unfolding watch_event stop
watch_event_delivered [] b = refl
watch_event_delivered (path ∷ []) b = refl
watch_event_delivered (path ∷ token ∷ more) b = elim (Option-cases (parse_u32 token)) [
  | inl e ↦ rw (e, watch_event) refl
  | inr (id, e) ↦ rw (e, watch_event) (offer_event_delivered id path b)
]

same_delivered :
    (m : XsdMessage) (b : Bus)
    → is_watch_event m.header ≡ true
    → (process_rx_message m b).delivered ≡ b.delivered
unfolding process_rx_message stop
same_delivered m b e = rw (e, process_rx_message) (by_strings (parse_string_vec m))
  where
    by_strings :
        (r : Outcome Error (List (List ℕ)))
        → let b' : Bus = elim r [
          | ok strings ↦ watch_event strings b
          | err e ↦ stop b
          | panic ↦ stop b
        ] in
          b'.delivered ≡ b.delivered
    by_strings (ok strings) = watch_event_delivered strings b
    by_strings (err e) = refl
    by_strings panic = refl

module _ (L : LittleEndianApi) where
  process_tx-IsRouted :
      (ok? : Bool) (b : Bus) → IsRouted b → IsRouted (process_tx L ok? b.tx_queue b)
  unfolding process_tx
  process_tx-IsRouted ok? b v = by_queue ok? b.tx_queue v.queued
    where
      by_queue :
          (ok? : Bool) (q : List XsdMessage)
          → All (IsRequest b.next_channel b.sent) q
          → IsRouted (process_tx L ok? q b)
      by_queue ok? [] a = v
      by_queue true (m ∷ q) a = record {
        waiting = v.waiting;
        queued = a.1;
        answered = v.answered;
        once = v.once;
        kept = v.kept;
      }
      by_queue false (m ∷ q) a = stop-IsRouted b v

  process_unwatch-IsRouted :
      (ok? : Bool) (q : List (ℕ × List ℕ)) (b : Bus)
      → IsRouted b
      → IsRouted (process_unwatch L ok? q b)
  unfolding process_unwatch
  process_unwatch-IsRouted ok? [] b v = v
  process_unwatch-IsRouted true ((id, path) ∷ q) b v = v
  process_unwatch-IsRouted false ((id, path) ∷ q) b v = record {
    waiting = v.waiting;
    queued = tt;
    answered = v.answered;
    once = v.once;
    kept = v.kept;
  }

  -- Every event keeps this: a waiting channel waits under the id of its own request; a reply that
  -- was sent to a channel carries the id of that channel's request; and no channel gets two replies.
  pub step-IsRouted : (e : Event L) (b : Bus) → IsRouted b → IsRouted (step L e b)
  unfolding step
  step-IsRouted (Event.sends tx typ payload) b v = send_buf-IsRouted tx typ payload b v
  step-IsRouted Event.watches b v = v
  step-IsRouted (Event.drops id path) b v =
      if_IsRouted (b.running && ltb (length b.unwatch_queue) 1000) b _ v v
  step-IsRouted (Event.flushes write_ok) b v =
      if_IsRouted b.running b _ v (process_tx-IsRouted write_ok b v)
  step-IsRouted (Event.receives m) b v =
      if_IsRouted b.running b _ v (process_rx_message-IsRouted m b v)
  step-IsRouted Event.closes b v = if_IsRouted b.running b _ v (stop-IsRouted b v)
  step-IsRouted (Event.unwatches write_ok) b v =
      if_IsRouted b.running b _ v (process_unwatch-IsRouted write_ok b.unwatch_queue b v)

  run_from-IsRouted : (es : List (Event L)) (b : Bus) → IsRouted b → IsRouted (run L es b)
  unfolding run
  run_from-IsRouted [] b v = v
  run_from-IsRouted (e ∷ es) b v = run_from-IsRouted es (step L e b) (step-IsRouted e b v)

  -- What becomes of a message that the processor is to receive: it is given to the channel of a call
  -- whose request has its id, and which has had no reply; or it is no reply, the loop has ended, or no
  -- call waits under its id, and no channel is given anything.
  pub data Handled (b : Bus) (m : XsdMessage) (b' : Bus) : Type 0 where
    answers :
        (c : ℕ)
        → IsCallOf b.sent c m.header.req
        → All (λ d. d.0 ≢ c) b.delivered
        → b'.delivered ≡ (c, m) ∷ b.delivered
        → Handled b m b'
    is_event : is_watch_event m.header ≡ true → b'.delivered ≡ b.delivered → Handled b m b'
    not_running : b.running ≡ false → b'.delivered ≡ b.delivered → Handled b m b'
    not_awaited : b.replies m.header.req ≡ none → b'.delivered ≡ b.delivered → Handled b m b'

  receives-Handled :
      (m : XsdMessage) (b : Bus) → IsRouted b → Handled b m (step L (Event.receives m) b)
  unfolding step process_rx_message dispatch_reply
  receives-Handled m b v = elim (Bool-cases b.running) [
    | inr off ↦ not_running off (ap (λ k. k.delivered) (if_off b.running b _ off))
    | inl on ↦ subst (Handled b m) (sym (if_on b.running b _ on)) received
  ]
    where
      if_off : (t : Bool) (b b' : Bus) → t ≡ false → (if t then b' else b) ≡ b
      if_off t b b' e = rw e refl

      if_on : (t : Bool) (b b' : Bus) → t ≡ true → (if t then b' else b) ≡ b'
      if_on t b b' e = rw e refl

      received : Handled b m (process_rx_message m b)
      received = elim (Bool-cases (is_watch_event m.header)) [
        | inl e ↦ is_event e (same_delivered m b e)
        | inr e ↦ elim (Option-cases (b.replies m.header.req)) [
          | inl f ↦ not_awaited f (rw (e, process_rx_message, f, dispatch_reply) refl)
          | inr (c, f) ↦
              answers c (v.waiting m.header.req c f).0
                (All-map b.delivered (λ d a same. a.over m.header.req (f ∙ ap some (sym same)))
                  v.answered)
                (rw (e, process_rx_message, f, dispatch_reply) refl)
        ]
      ]

  -- After any history of a new connection: the messages that are to be written are the requests of
  -- calls, each reply has reached the channel of a call whose request message has its id, and no
  -- channel has had two replies; each call waits under its id, or has had its reply, or a later call
  -- has taken its id. A message that then comes is given to the channel of such a call
  -- that has had no reply, unless it is a watch event, the loop has ended, or no call waits under its
  -- id, and then no channel is given anything.
  pub run-IsRouted :
      (es : List (Event L)) (m : XsdMessage)
      → IsRouted (run L es from_handle)
        × Handled (run L es from_handle) m (step L (Event.receives m) (run L es from_handle))
  unfolding from_handle
  run-IsRouted es m =
      let v = run_from-IsRouted es from_handle (record {
        waiting = λ r c e. cc;
        queued = tt;
        answered = tt;
        once = tt;
        kept = λ c h. absurd (omega arith);
      }) in
      (v, receives-Handled m (run L es from_handle) v)
