-- ===== src/Xenstore/Tests/BusRuns.antt =====
-- Histories of a connection.
use krata.Prelude.{◌≡◌, refl, true, false, none, some, List, [], ◌∷◌, ◌++◌}
use krata.Xenstore.Message.{XsdMessage, compose}
use krata.Xenstore.Bus.{Bus, Event, step, run, from_handle, request_message, is_watch_event}
use krata.Xenstore.Bus.Channels.{IsRouted}
use krata.Xenstore.Bus.Routing.{Handled, run-IsRouted}
use krata.Xenstore.Bus.Delivery.{request_reply}
use krata.Xenstore.Tests.Wire.{le}

abbrev reply : XsdMessage
reply = record { header = record { typ = 2; req = 0; tx = 0; len = 1 }; payload = 120 ∷ [] }

abbrev history : List (Event le)
history =
    Event.sends 0 2 (47 ∷ 0 ∷ [])
    ∷ Event.flushes true
    ∷ Event.receives reply
    ∷ Event.sends 0 2 []
    ∷ Event.closes
    ∷ []

run-IsRouted_example :
    IsRouted (run le history from_handle)
    × Handled le
        (run le history from_handle)
        reply
        (step le (Event.receives reply) (run le history from_handle))
run-IsRouted_example = run-IsRouted le history reply

abbrev idle : Bus
idle = record {
  next_request_id = 0;
  next_watch_id = 1;
  next_channel = 0;
  sent = λ _. none;
  replies = λ _. none;
  watches = λ i. some [];
  tx_queue = [];
  unwatch_queue = [];
  written = [];
  delivered = [];
  running = true;
}

request_reply_example :
    let b' =
      run le
        (Event.sends 0 2 (47 ∷ 0 ∷ []) ∷ Event.flushes true ∷ Event.receives reply ∷ [])
        idle in
    (b'.written ≡ [] ++ compose le (request_message 0 0 2 (47 ∷ 0 ∷ [])))
    × (b'.delivered ≡ (0, reply) ∷ [])
    × (b'.replies 0 ≡ none)
    × (b'.tx_queue ≡ [])
request_reply_example = request_reply le idle 0 2 (47 ∷ 0 ∷ []) reply refl refl refl ordinary
  where
    ordinary : is_watch_event reply.header ≡ false
    ordinary = unfold is_watch_event in refl

-- The event of watch 3 at the path `a`.
abbrev changed : XsdMessage
changed = record {
  header = record { typ = 15; req = 0; tx = 0; len = 4 };
  payload = 97 ∷ 0 ∷ 51 ∷ 0 ∷ [];
}
