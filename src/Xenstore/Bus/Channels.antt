-- ===== src/Xenstore/Bus/Channels.antt =====
-- crates/xen/xenstore/src/bus.rs: the channels that wait for replies, and what opening and closing one keeps.
use krata.Prelude.{
  ◌⊎◌, ℕ, suc, ◌<◌, ◌≡◌, ◌≢◌, sym, ap, ◌∙◌, Option, none, some, List, [], ◌∷◌, All, All-map, ◌==◌,
  arith, inl, inr, Bool-cases,
}
use krata.Xenstore.Message.{XsdMessage}
use krata.Xenstore.Bus.{Bus, update}

-- The channel was made for a request with that id.
abbrev pub IsCallOf : (ℕ → Option XsdMessage) → ℕ → ℕ → Type 0
IsCallOf sent c r = (message : XsdMessage) × (sent c ≡ some message) × (message.header.req ≡ r)

module _ (next : ℕ) (sent : ℕ → Option XsdMessage) (replies : ℕ → Option ℕ) where
  -- A reply was sent to the channel of the request whose id it carries, and nothing waits on that
  -- channel any more.
  pub record IsAnswered (d : ℕ × XsdMessage) : Type 0 where
    pub own : IsCallOf sent d.0 d.1.header.req
    pub known : d.0 < next
    pub over : (r : ℕ) → replies r ≢ some d.0

-- A message that is to be written is the request of a channel.
abbrev pub IsRequest : ℕ → (ℕ → Option XsdMessage) → XsdMessage → Type 0
IsRequest next sent m = (c : ℕ) × (c < next) × (sent c ≡ some m)

-- No channel gets two replies.
abbrev pub IsOnce : List (ℕ × XsdMessage) → Type 0
IsOnce [] = Unit {0}
IsOnce (d ∷ ds) = All (λ e. e.0 ≢ d.0) ds × IsOnce ds

-- The channel has had a reply.
abbrev pub HasReply : ℕ → List (ℕ × XsdMessage) → Type 0
HasReply c [] = ⊥
HasReply c (d ∷ ds) = (d.0 ≡ c) ⊎ HasReply c ds

-- What has become of a call: it waits, it has had its reply, or a later call has taken its id.
pub data Fate (next : ℕ) (sent : ℕ → Option XsdMessage) (replies : ℕ → Option ℕ)
    (delivered : List (ℕ × XsdMessage)) (c : ℕ) : Type 0 where
  waits : (r : ℕ) → replies r ≡ some c → Fate next sent replies delivered c
  has_reply : HasReply c delivered → Fate next sent replies delivered c
  overtaken :
      (r later : ℕ)
      → c < later
      → later < next
      → IsCallOf sent c r
      → IsCallOf sent later r
      → Fate next sent replies delivered c

pub record Routed (next : ℕ) (sent : ℕ → Option XsdMessage) (replies : ℕ → Option ℕ)
    (queue : List XsdMessage) (delivered : List (ℕ × XsdMessage)) : Type 0 where
  pub waiting : (r c : ℕ) → replies r ≡ some c → IsCallOf sent c r × (c < next)
  pub queued : All (IsRequest next sent) queue
  pub answered : All (IsAnswered next sent replies) delivered
  pub once : IsOnce delivered
  pub kept : (c : ℕ) → c < next → Fate next sent replies delivered c

abbrev pub IsRouted : Bus → Type 0
IsRouted b = Routed b.next_channel b.sent b.replies b.tx_queue b.delivered

-- The entries of older channels stay.
update_older :
    (next c : ℕ) (sent : ℕ → Option XsdMessage) (m : XsdMessage)
    → c < next
    → update sent next (some m) c ≡ sent c
update_older next c sent m h = ground arith

pub update_newest :
    (next : ℕ) (sent : ℕ → Option XsdMessage) (m : XsdMessage)
    → update sent next (some m) next ≡ some m
update_newest next sent m = ground arith

-- A new channel waits for the request, whose id may take the entry of an older call.
pub open_channel :
    (next : ℕ) (m : XsdMessage) (sent : ℕ → Option XsdMessage) (replies : ℕ → Option ℕ)
    (queue : List XsdMessage) (delivered : List (ℕ × XsdMessage))
    → Routed next sent replies queue delivered
    → Routed
        (suc next)
        (update sent next (some m))
        (update replies m.header.req (some next))
        queue
        delivered
open_channel next m sent replies queue delivered v = record {
  waiting = λ r c e. elim (Bool-cases (r == m.header.req)) [
    | inl same ↦
        let newest : c ≡ next = ground arith in
        let id : m.header.req ≡ r = ground arith in
        ((m, ap (update sent next (some m)) newest ∙ update_newest next sent m, id), omega arith)
    | inr other ↦
        let older : replies r ≡ some c = ground arith in
        let (call, h) = v.waiting r c older in (stays r c h call, omega arith)
  ];
  queued =
      All-map queue (λ k (c, h, e). (c, omega arith, update_older next c sent m h ∙ e)) v.queued;
  answered =
      All-map delivered
        (λ d a. record {
          own = stays d.1.header.req d.0 a.known a.own;
          known = omega (arith, a.known);
          over = λ r e. ground (arith, a.over r, a.known);
        })
        v.answered;
  once = v.once;
  kept = λ c h. elim (Bool-cases (c == next)) [
    | inl e ↦ waits m.header.req (ground arith)
    | inr e ↦ older c (ground arith) (v.kept c (ground arith))
  ];
}
  where
    stays : (r c : ℕ) → c < next → IsCallOf sent c r → IsCallOf (update sent next (some m)) c r
    stays r c h (k, e, f) = (k, update_older next c sent m h ∙ e, f)

    older :
        (c : ℕ)
        → c < next
        → Fate next sent replies delivered c
        → Fate
            (suc next)
            (update sent next (some m))
            (update replies m.header.req (some next))
            delivered
            c
    older c h (waits r e) = elim (Bool-cases (r == m.header.req)) [
      | inl same ↦
          let id : m.header.req ≡ r = ground arith in
          overtaken r next h (omega arith) (stays r c h (v.waiting r c e).0)
            (m, update_newest next sent m, id)
      | inr other ↦ waits r (ground arith)
    ]
    older c h (has_reply e) = has_reply e
    older c h (overtaken r later b k p q) =
        overtaken r later b (omega arith) (stays r c h p) (stays r later k q)

-- The reply to `req` goes to the channel that waits for it.
pub close_channel :
    (next c : ℕ) (m : XsdMessage) (sent : ℕ → Option XsdMessage) (replies : ℕ → Option ℕ)
    (queue : List XsdMessage) (delivered : List (ℕ × XsdMessage))
    → replies m.header.req ≡ some c
    → Routed next sent replies queue delivered
    → Routed next sent (update replies m.header.req none) queue ((c, m) ∷ delivered)
close_channel next c m sent replies queue delivered e v = record {
  waiting = λ r d h. let older : replies r ≡ some d = ground arith in v.waiting r d older;
  queued = v.queued;
  answered = (
    record {
      own = (v.waiting m.header.req c e).0;
      known = (v.waiting m.header.req c e).1;
      over = λ r h. not_again r (ground arith) (ground arith);
    },
    All-map delivered
        (λ d a. record { own = a.own; known = a.known; over = λ r h. ground (arith, a.over r) })
        v.answered,
  );
  once = (
    All-map delivered (λ d a same. a.over m.header.req (e ∙ ap some (sym same))) v.answered,
    v.once,
  );
  kept = λ d h. closes d (v.kept d h);
}
  where
    closes :
        (d : ℕ)
        → Fate next sent replies delivered d
        → Fate next sent (update replies m.header.req none) ((c, m) ∷ delivered) d
    closes d (waits r f) = elim (Bool-cases (r == m.header.req)) [
      | inl same ↦
          let id : r ≡ m.header.req = ground arith in
          let both : some c ≡ some d = sym e ∙ ap replies (sym id) ∙ f in has_reply (inl (cc both))
      | inr other ↦ waits r (ground arith)
    ]
    closes d (has_reply h) = has_reply (inr h)
    closes d (overtaken r later b k p q) = overtaken r later b k p q

    -- A channel waits under the id of its request only.
    not_again : (r : ℕ) → r ≢ m.header.req → replies r ≡ some c → ⊥
    not_again r n h =
        let (k, f, g) = (v.waiting r c h).0 in
        let (l, p, q) = (v.waiting m.header.req c e).0 in
        let both : some k ≡ some l = sym f ∙ p in
        let same : k ≡ l = cc both in n (sym g ∙ ap (λ x. x.header.req) same ∙ q)
