-- ===== src/Daemon/Ancs/Protocol/Replay.antt =====
-- The notifications that the consumer knows: completed, pending and queued.
use analogconnect.Base.{
  ℕ, ◌+◌, ◌-◌, ◌≤◌, ◌≡◌, refl, sym, ap, ap₂, ◌∙◌, inl, inr, Bool-cases, Option-cases, Option, none,
  some, Bool, true, false, not, ◌||◌, List, [], ◌∷◌, ◌++◌, length, drop, ltb, append_assoc,
  append-nil, length-append, length-drop, length-filter-le, if◌then◌else◌, arith, subst,
}
use analogconnect.Base.Text.{same, member}
use analogconnect.Base.Distinct.{
  Distinct, left_out, Distinct-Sublist, Sublist_refl, Sublist-append_left, Sublist-append_right,
  Sublist-drop, Sublist-filter, Distinct-append, member-append,
}
use analogconnect.Daemon.Ancs.Attributes.{parse_attributes}
use analogconnect.Daemon.Ancs.Protocol.{
  AncsProtocolConsumer, NotificationEventKind, NotificationSourceEvent, added, modified, removed,
  parse_event, without, is_pending, is_known, announced, noticed, on_event, notification_source,
  data_source, received, answered, requested, reset_pending, start_next, remembered,
  max_response_bytes, default_consumer,
}

abbrev pub listed : Option (List ℕ) → List (List ℕ)
listed none = []
listed (some uid) = uid ∷ []

-- From the oldest to the latest announced.
abbrev pub known : AncsProtocolConsumer → List (List ℕ)
known c = c.completed ++ (listed c.pending ++ c.queued)

abbrev HasNoQueue : Option (List ℕ) → List (List ℕ) → Type 0
HasNoQueue none queued = queued ≡ []
HasNoQueue (some uid) queued = Unit {0}

pub record IsConsumer (c : AncsProtocolConsumer) : Type 0 where
  pub distinct : Distinct (known c)
  pub queue_bound : length c.queued ≤ 32
  pub completed_bound : length c.completed ≤ 64
  pub response_bound : length c.response ≤ max_response_bytes
  pub busy : HasNoQueue c.pending c.queued

pub default_consumer-IsConsumer : IsConsumer default_consumer
default_consumer-IsConsumer = record {
  distinct = tt;
  queue_bound = omega arith;
  completed_bound = omega arith;
  response_bound = omega arith;
  busy = refl;
}

member-listed :
    (uid : List ℕ) (pending : Option (List ℕ)) (queued : List (List ℕ))
    → member uid (listed pending ++ queued) ≡ (is_pending uid pending || member uid queued)
unfolding member
member-listed uid none queued = refl
member-listed uid (some other) queued = refl

or_assoc : (a b c : Bool) → (a || b || c) ≡ (a || (b || c))
or_assoc true b c = refl
or_assoc false b c = refl

pub is_known-member :
    (c : AncsProtocolConsumer) (uid : List ℕ) → is_known c uid ≡ member uid (known c)
is_known-member c uid =
    or_assoc (member uid c.completed) (is_pending uid c.pending) (member uid c.queued)
    ∙ ap (◌||◌ (member uid c.completed)) (sym (member-listed uid c.pending c.queued))
    ∙ sym (member-append uid c.completed (listed c.pending ++ c.queued))

requested-IsConsumer :
    (c : AncsProtocolConsumer) (queued : List (List ℕ))
    → c.queued ≡ queued
    → Distinct (c.completed ++ c.queued)
    → length c.queued ≤ 32
    → length c.completed ≤ 64
    → IsConsumer (requested (reset_pending c) queued).0
requested-IsConsumer c [] e d q m = record {
  distinct = d;
  queue_bound = q;
  completed_bound = m;
  response_bound = omega arith;
  busy = e;
}
requested-IsConsumer c (uid ∷ queued) e d q m = record {
  distinct = subst (λ xs. Distinct (c.completed ++ xs)) e d;
  queue_bound = let l = ap length e in omega arith;
  completed_bound = m;
  response_bound = omega arith;
  busy = tt;
}

start_next-IsConsumer :
    (c : AncsProtocolConsumer)
    → Distinct (c.completed ++ c.queued)
    → length c.queued ≤ 32
    → length c.completed ≤ 64
    → IsConsumer (start_next c).0
unfolding start_next
start_next-IsConsumer c = requested-IsConsumer c c.queued refl

-- Without its pending notification, what a consumer knows stays distinct.
released :
    (completed queued : List (List ℕ)) (pending : Option (List ℕ))
    → Distinct (completed ++ (listed pending ++ queued))
    → Distinct (completed ++ queued)
released completed queued none d = d
released completed queued (some uid) d =
    Distinct-Sublist (Sublist-append_left completed (left_out (Sublist_refl queued))) d

remembered-Distinct :
    (completed queued : List (List ℕ)) (uid : List ℕ)
    → Distinct (completed ++ (uid ∷ queued))
    → Distinct (remembered completed uid ++ queued)
remembered-Distinct completed queued uid d =
    let grown = completed ++ (uid ∷ []) in
    Distinct-Sublist (Sublist-append_right queued (Sublist-drop (length grown - 64) grown))
      (subst Distinct (sym (append_assoc completed (uid ∷ []) queued)) d)

length-remembered :
    (completed : List (List ℕ)) (uid : List ℕ) → length (remembered completed uid) ≤ 64
length-remembered completed uid =
    let grown = completed ++ (uid ∷ []) in omega (arith, length-drop (length grown - 64) grown)

answered-IsConsumer :
    (c : AncsProtocolConsumer) (uid : List ℕ) (parsed : Option (List (List ℕ) × ℕ))
    → c.pending ≡ some uid
    → IsConsumer c
    → IsConsumer (answered c uid parsed).0
answered-IsConsumer c uid none pending v = v
answered-IsConsumer c uid (some (values, consumed)) pending v =
    let c' = record c {
      pending = none;
      response = drop consumed c.response;
      completed = remembered c.completed uid;
    } in
    let d = subst (λ p. Distinct (c.completed ++ (listed p ++ c.queued))) pending v.distinct in
    start_next-IsConsumer c' (remembered-Distinct c.completed c.queued uid d) v.queue_bound
      (length-remembered c.completed uid)

reset-IsConsumer :
    (c : AncsProtocolConsumer) → IsConsumer c → IsConsumer (start_next (reset_pending c)).0
reset-IsConsumer c v =
    start_next-IsConsumer (reset_pending c) (released c.completed c.queued c.pending v.distinct)
      v.queue_bound v.completed_bound

received-IsConsumer :
    (c : AncsProtocolConsumer) (fragment uid : List ℕ)
    → c.pending ≡ some uid
    → IsConsumer c
    → IsConsumer (received c fragment (some uid)).0
received-IsConsumer c fragment uid pending v =
    elim (Bool-cases (ltb max_response_bytes (length c.response + length fragment))) [
      | inl long ↦ rw long (reset-IsConsumer c v)
      | inr fits ↦
          let c' = record c { response = c.response ++ fragment } in
          let few : length (c.response ++ fragment) ≤ max_response_bytes =
            ground (arith, length-append c.response fragment) in
          let v' : IsConsumer c' = record {
            distinct = v.distinct;
            queue_bound = v.queue_bound;
            completed_bound = v.completed_bound;
            response_bound = few;
            busy = v.busy;
          } in
          rw fits
            (answered-IsConsumer c' uid (parse_attributes (c.response ++ fragment)) pending v')
    ]

pub data_source-IsConsumer :
    (c : AncsProtocolConsumer) (fragment : List ℕ)
    → IsConsumer c
    → IsConsumer (data_source c fragment).0
unfolding data_source
data_source-IsConsumer c fragment v =
    let family = λ (pending : Option (List ℕ)). IsConsumer (received c fragment pending).0 in
    elim (Option-cases c.pending) as (λ _. family c.pending) [
      | inl idle ↦ subst family (sym idle) (reset-IsConsumer c v)
      | inr (uid, pending) ↦
          subst family (sym pending) (received-IsConsumer c fragment uid pending v)
    ]

announced-IsConsumer :
    (c : AncsProtocolConsumer) (uid : List ℕ) (pending : Option (List ℕ))
    → c.pending ≡ pending
    → member uid (known c) ≡ false
    → IsConsumer c
    → IsConsumer (announced c uid pending).0
announced-IsConsumer c uid none e new v =
    let empty : c.queued ≡ [] = subst (λ p. HasNoQueue p c.queued) e v.busy in
    let all : known c ≡ c.completed =
      ap₂ (λ p q. c.completed ++ (listed p ++ q)) e empty ∙ append-nil c.completed in
    let d =
      Distinct-append uid c.completed (ap (member uid) (sym all) ∙ new)
        (subst Distinct all v.distinct) in
    record {
      distinct = subst (λ q. Distinct (c.completed ++ (uid ∷ q))) (sym empty) d;
      queue_bound = v.queue_bound;
      completed_bound = v.completed_bound;
      response_bound = omega arith;
      busy = tt;
    }
announced-IsConsumer c uid (some other) e new v = elim (Bool-cases (ltb (length c.queued) 32)) [
  | inl room ↦
      let grown : known c ++ (uid ∷ [])
          ≡ c.completed ++ (listed c.pending ++ (c.queued ++ (uid ∷ []))) =
        append_assoc c.completed (listed c.pending ++ c.queued) (uid ∷ [])
        ∙ ap (◌++◌ c.completed) (append_assoc (listed c.pending) c.queued (uid ∷ [])) in
      let v' : IsConsumer (record c { queued = c.queued ++ (uid ∷ []) }) = record {
        distinct = subst Distinct grown (Distinct-append uid (known c) new v.distinct);
        queue_bound = ground (arith, length-append c.queued (uid ∷ []));
        completed_bound = v.completed_bound;
        response_bound = v.response_bound;
        busy = subst (λ p. HasNoQueue p (c.queued ++ (uid ∷ []))) (sym e) tt;
      } in
      rw room v'
  | inr full ↦ rw full v
]

withdrawn :
    (pending : Option (List ℕ)) (queued : List (List ℕ)) (uid : List ℕ)
    → HasNoQueue pending queued
    → HasNoQueue pending (without uid queued)
withdrawn none queued uid e = ap (without uid) e
withdrawn (some other) queued uid e = tt

removed-IsConsumer :
    (c : AncsProtocolConsumer) (uid : List ℕ) → IsConsumer c → IsConsumer (noticed c removed uid).0
removed-IsConsumer c uid v = record {
  distinct =
      Distinct-Sublist
        (Sublist-append_left c.completed (
          Sublist-append_left (listed c.pending)
            (Sublist-filter (λ other. not (same other uid)) c.queued)))
        v.distinct;
  queue_bound =
      omega (arith, v.queue_bound, length-filter-le (λ other. not (same other uid)) c.queued);
  completed_bound = v.completed_bound;
  response_bound = v.response_bound;
  busy = withdrawn c.pending c.queued uid v.busy;
}

announce-IsConsumer :
    (c : AncsProtocolConsumer) (uid : List ℕ)
    → IsConsumer c
    → IsConsumer (if is_known c uid then (c, none) else announced c uid c.pending).0
announce-IsConsumer c uid v = elim (Bool-cases (is_known c uid)) [
  | inl old ↦ rw old v
  | inr new ↦
      rw new (announced-IsConsumer c uid c.pending refl (sym (is_known-member c uid) ∙ new) v)
]

noticed-IsConsumer :
    (c : AncsProtocolConsumer) (kind : NotificationEventKind) (uid : List ℕ)
    → IsConsumer c
    → IsConsumer (noticed c kind uid).0
noticed-IsConsumer c added uid v = announce-IsConsumer c uid v
noticed-IsConsumer c modified uid v = announce-IsConsumer c uid v
noticed-IsConsumer c removed uid v = removed-IsConsumer c uid v

on_event-IsConsumer :
    (c : AncsProtocolConsumer) (event : Option NotificationSourceEvent)
    → IsConsumer c
    → IsConsumer (on_event c event).0
on_event-IsConsumer c none v = v
on_event-IsConsumer c (some event) v = noticed-IsConsumer c event.kind event.uid v

pub notification_source-IsConsumer :
    (c : AncsProtocolConsumer) (value : List ℕ)
    → IsConsumer c
    → IsConsumer (notification_source c value).0
unfolding notification_source
notification_source-IsConsumer c value = on_event-IsConsumer c (parse_event value)
