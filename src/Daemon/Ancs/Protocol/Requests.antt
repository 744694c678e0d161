-- ===== src/Daemon/Ancs/Protocol/Requests.antt =====
-- The requests that the consumer makes over its life.
use analogconnect.Base.{
  ℕ, ◌+◌, ◌≡◌, refl, sym, ap, ◌∙◌, Option, none, some, Bool, true, false, List, [], ◌∷◌, ◌++◌,
  length, drop, ltb, append_assoc, if◌then◌else◌, arith, subst,
}
use analogconnect.Base.Options.{some_injective}
use analogconnect.Base.Text.{member}
use analogconnect.Base.Distinct.{Distinct, Distinct-before, member-append}
use analogconnect.Daemon.Ancs.Attributes.{attribute_request, parse_attributes}
use analogconnect.Daemon.Ancs.Protocol.{
  AncsProtocolConsumer, NotificationEventKind, NotificationSourceEvent, added, modified, removed,
  parse_event, is_known, announced, noticed, on_event, notification_source, data_source, received,
  answered, requested, reset_pending, with_metadata, start_next, remembered, max_response_bytes,
  default_consumer,
}
use analogconnect.Daemon.Ancs.Protocol.Replay.{
  IsConsumer, listed, known, is_known-member, default_consumer-IsConsumer, data_source-IsConsumer,
  notification_source-IsConsumer,
}

pub data ConsumerOp : Type 0 where
  notices : List ℕ → ConsumerOp
  responds : List ℕ → ConsumerOp

abbrev pub step : AncsProtocolConsumer → ConsumerOp → AncsProtocolConsumer × Option (List ℕ)
step c (notices value) = notification_source c value
step c (responds fragment) = let (c', metadata, request) = data_source c fragment in (c', request)

abbrev pub run : AncsProtocolConsumer → List ConsumerOp → AncsProtocolConsumer
run c [] = c
run c (op ∷ ops) = run (step c op).0 ops

step-IsConsumer :
    (c : AncsProtocolConsumer) (op : ConsumerOp) → IsConsumer c → IsConsumer (step c op).0
step-IsConsumer c (notices value) v = notification_source-IsConsumer c value v
step-IsConsumer c (responds fragment) v = data_source-IsConsumer c fragment v

run-IsConsumer_from :
    (c : AncsProtocolConsumer) (ops : List ConsumerOp) → IsConsumer c → IsConsumer (run c ops)
run-IsConsumer_from c [] v = v
run-IsConsumer_from c (op ∷ ops) v = run-IsConsumer_from (step c op).0 ops (step-IsConsumer c op v)

-- After any sequence of bytes from the two sources, a new consumer knows no notification twice, be
-- it completed, pending or queued; at most 32 are queued, none unless one is pending, and at most 64
-- completed ones are remembered; and the response so far is within its limit.
pub run-IsConsumer : (ops : List ConsumerOp) → IsConsumer (run default_consumer ops)
run-IsConsumer ops = run-IsConsumer_from default_consumer ops default_consumer-IsConsumer

-- A request, for a notification that was neither completed nor pending and is pending now.
pub record IsNewRequest (before after : AncsProtocolConsumer) (request uid : List ℕ) : Type 0 where
  pub asked : request ≡ attribute_request uid
  pub pending : after.pending ≡ some uid
  pub unknown : member uid (before.completed ++ listed before.pending) ≡ false

queue_head :
    (c : AncsProtocolConsumer) (uid : List ℕ) (queued : List (List ℕ))
    → IsConsumer c
    → c.queued ≡ uid ∷ queued
    → member uid (c.completed ++ listed c.pending) ≡ false
queue_head c uid queued v e = Distinct-before uid (c.completed ++ listed c.pending) queued (
    subst Distinct
      (ap (λ q. c.completed ++ (listed c.pending ++ q)) e
        ∙ sym (append_assoc c.completed (listed c.pending) (uid ∷ queued)))
      v.distinct)

requested-request :
    (before c : AncsProtocolConsumer) (queued : List (List ℕ)) {request : List ℕ}
    → IsConsumer before
    → before.queued ≡ queued
    → (requested c queued).1 ≡ some request
    → (uid : List ℕ) × IsNewRequest before (requested c queued).0 request uid
requested-request before c [] v e h = absurd (cc h)
requested-request before c (uid ∷ queued) v e h = (
  uid,
  record {
    asked = sym (some_injective h);
    pending = refl;
    unknown = queue_head before uid queued v e;
  },
)

start_next-request :
    (before c : AncsProtocolConsumer) {request : List ℕ}
    → IsConsumer before
    → before.queued ≡ c.queued
    → (start_next c).1 ≡ some request
    → (uid : List ℕ) × IsNewRequest before (start_next c).0 request uid
unfolding start_next
start_next-request before c v e h = requested-request before (reset_pending c) c.queued v e h

answered-request :
    (before c : AncsProtocolConsumer) (uid : List ℕ) (parsed : Option (List (List ℕ) × ℕ))
    {request : List ℕ}
    → IsConsumer before
    → before.queued ≡ c.queued
    → (answered c uid parsed).2 ≡ some request
    → (next : List ℕ) × IsNewRequest before (answered c uid parsed).0 request next
answered-request before c uid none v e h = absurd (cc h)
answered-request before c uid (some (values, consumed)) v e h =
    start_next-request before
      (record c {
        pending = none;
        response = drop consumed c.response;
        completed = remembered c.completed uid;
      })
      v e h

-- By whether the fragment is too long.
limited-request :
    (c : AncsProtocolConsumer) (fragment uid : List ℕ) (long : Bool) {request : List ℕ}
    → IsConsumer c
    → (if long
        then with_metadata none (start_next (reset_pending c))
        else answered
            (record c { response = c.response ++ fragment })
            uid
            (parse_attributes (c.response ++ fragment))).2
      ≡ some request
    → (next : List ℕ) × IsNewRequest c
        (if long
          then with_metadata none (start_next (reset_pending c))
          else answered
              (record c { response = c.response ++ fragment })
              uid
              (parse_attributes (c.response ++ fragment))).0
        request
        next
limited-request c fragment uid true v h = start_next-request c (reset_pending c) v refl h
limited-request c fragment uid false v h =
    answered-request c (record c { response = c.response ++ fragment }) uid
      (parse_attributes (c.response ++ fragment)) v refl h

received-request :
    (c : AncsProtocolConsumer) (fragment : List ℕ) (pending : Option (List ℕ)) {request : List ℕ}
    → IsConsumer c
    → (received c fragment pending).2 ≡ some request
    → (uid : List ℕ) × IsNewRequest c (received c fragment pending).0 request uid
received-request c fragment none v h = start_next-request c (reset_pending c) v refl h
received-request c fragment (some uid) v h =
    limited-request c fragment uid (ltb max_response_bytes (length c.response + length fragment)) v
      h

announced-request :
    (c : AncsProtocolConsumer) (uid : List ℕ) (pending : Option (List ℕ)) {request : List ℕ}
    → c.pending ≡ pending
    → member uid (known c) ≡ false
    → (announced c uid pending).1 ≡ some request
    → (next : List ℕ) × IsNewRequest c (announced c uid pending).0 request next
unfolding member
announced-request c uid none e new h = (
  uid,
  record {
    asked = sym (some_injective h);
    pending = refl;
    unknown = ground (
      arith,
      member-append uid (c.completed ++ listed c.pending) c.queued,
      ap (member uid) (append_assoc c.completed (listed c.pending) c.queued),
    );
  },
)
announced-request c uid (some other) e new h = absurd (cc h)

announce-request :
    (c : AncsProtocolConsumer) (uid : List ℕ) (old : Bool) {request : List ℕ}
    → is_known c uid ≡ old
    → (if old then (c, none) else announced c uid c.pending).1 ≡ some request
    → (next : List ℕ) × IsNewRequest c
        (if old then (c, none) else announced c uid c.pending).0
        request
        next
announce-request c uid true e h = absurd (cc h)
announce-request c uid false e h =
    announced-request c uid c.pending refl (sym (is_known-member c uid) ∙ e) h

noticed-request :
    (c : AncsProtocolConsumer) (kind : NotificationEventKind) (uid : List ℕ) {request : List ℕ}
    → (noticed c kind uid).1 ≡ some request
    → (next : List ℕ) × IsNewRequest c (noticed c kind uid).0 request next
noticed-request c added uid h = announce-request c uid (is_known c uid) refl h
noticed-request c modified uid h = announce-request c uid (is_known c uid) refl h
noticed-request c removed uid h = absurd (cc h)

on_event-request :
    (c : AncsProtocolConsumer) (event : Option NotificationSourceEvent) {request : List ℕ}
    → (on_event c event).1 ≡ some request
    → (uid : List ℕ) × IsNewRequest c (on_event c event).0 request uid
on_event-request c none h = absurd (cc h)
on_event-request c (some event) h = noticed-request c event.kind event.uid h

pub step-request :
    (c : AncsProtocolConsumer) (op : ConsumerOp) (request : List ℕ)
    → IsConsumer c
    → (step c op).1 ≡ some request
    → (uid : List ℕ) × IsNewRequest c (step c op).0 request uid
unfolding notification_source data_source
step-request c (notices value) request v h = on_event-request c (parse_event value) h
step-request c (responds fragment) request v h = received-request c fragment c.pending v h
