-- ===== src/Daemon/Server/Messages/Once.antt =====
-- When `send_message` sends, and what it answers.
use analogconnect.Base.{
  err_injective, ℕ, ◌<◌, ◌≤◌, ◌≡◌, ◌⊎◌, refl, sym, ap, ◌∙◌, inl, inr, true, false, Bool-cases,
  Option, none, some, List, [], Result, ok, err, ◌>>◌, is_ok, newest, unit_ok, length, subst,
}
use analogconnect.Base.Text.{Text, member}
use analogconnect.Daemon.Auth.{AuthTokens}
use analogconnect.Daemon.Messages.Operations
use analogconnect.Daemon.Messages.Operations.{
  OutboundMessage, new_message, new_operation_id, MessageOperationStart, new_operation, accept,
  fail, in_flight_already, accepted_duplicate, MessageOperationRegistry, begin_operation,
  new_registry, OperationEvent,
}
use analogconnect.Daemon.Messages.Operations.Remembered.{begin_operation-run}
use analogconnect.Daemon.Server.Guards.{
  StatusCode, authorize, authorize_mutation, conflict, bad_gateway, internal_server_error,
}
use analogconnect.Daemon.Server.Messages.{
  SendMessageRequest, SendOutcome, sent, not_sent, task_failed, send_status, checked, SendState,
  Answer, concluded, begun, processed, admitted, send_message,
}
use analogconnect.Daemon.Server.Messages.Asked.{
  Spoils, checked-Spoils, IsAsked, checked_id, checked-IsAsked,
}

abbrev pub answer_of : SendOutcome → Answer
answer_of outcome = send_status outcome >> ok (record { accepted = true; duplicate = false })

-- The registry once an operation has begun, if there is one.
abbrev pub begun_registry : MessageOperationRegistry → Option Text → MessageOperationRegistry
begun_registry r none = r
begun_registry r (some id) = (begin_operation r id).0

abbrev pub IsNew : MessageOperationRegistry → Option Text → Type 0
IsNew r none = Unit {0}
IsNew r (some id) = (begin_operation r id).1 ≡ new_operation

begin_operation-kept :
    (r : MessageOperationRegistry) (id : Text)
    → ((begin_operation r id).1 ≡ new_operation) ⊎ ((begin_operation r id).0 ≡ r)
unfolding begin_operation
begin_operation-kept r id = elim (Bool-cases (member id r.accepted)) [
  | inl t ↦ inr (rw t refl)
  | inr f ↦ elim (Bool-cases (member id r.in_flight)) [
    | inl t ↦ inr (rw (f, t) refl)
    | inr g ↦ inl (rw (f, g) refl)
  ]
]

kept :
    (operations : MessageOperationRegistry) (id : Text) (start : MessageOperationStart)
    (r : MessageOperationRegistry)
    → begin_operation r id ≡ (operations, start)
    → ¬ (start ≡ new_operation)
    → operations ≡ r
kept operations id start r e old = elim (begin_operation-kept r id) [
  | inl new ↦ absurd (old (sym (ap (λ p. p.1) e) ∙ new))
  | inr same ↦ sym (ap (λ p. p.0) e) ∙ same
]

module _ {S : Type 0} (send : S → OutboundMessage → S × SendOutcome) where
  -- Nothing was sent, no operation was recorded, and the answer has a reason.
  pub record IsQuiet (Why : Answer → Type 0) (s : SendState S) (r : SendState S × Answer)
      : Type 0 where
    pub backend_kept : r.0.backend ≡ s.backend
    pub operations_kept : r.0.operations ≡ s.operations
    pub told : Why r.1

  -- Why an operation does not begin.
  pub data Held (operations : MessageOperationRegistry) (id : Text) : Answer → Type 0 where
    is_sent :
        (begin_operation operations id).1 ≡ accepted_duplicate
        → Held operations id (ok (record { accepted = true; duplicate = true }))
    in_flight :
        (begin_operation operations id).1 ≡ in_flight_already → Held operations id (err conflict)

  pub data Stops (operations : MessageOperationRegistry)
      (valid : Result (OutboundMessage × Option Text) StatusCode) : Answer → Type 0 where
    not_valid : (e : StatusCode) → valid ≡ err e → Stops operations valid (err e)
    not_begun :
        (message : OutboundMessage) (id : Text) (answer : Answer)
        → valid ≡ ok (message, some id)
        → Held operations id answer
        → Stops operations valid answer

  -- Why a request sends nothing, and the answer: a refusal, or that of a duplicate.
  pub data Refuses (s : SendState S) (tokens : AuthTokens) (authorization : Option Text) (now : ℕ)
      (from_slice : List ℕ → Option SendMessageRequest) (body : List ℕ) : Answer → Type 0 where
    not_authorized :
        (e : StatusCode)
        → authorize tokens authorization ≡ err e
        → Refuses s tokens authorization now from_slice body (err e)
    over_rate :
        (e : StatusCode)
        → (authorize_mutation s.limiter now).1 ≡ err e
        → Refuses s tokens authorization now from_slice body (err e)
    spoiled :
        (e : StatusCode)
        → Spoils from_slice body e
        → Refuses s tokens authorization now from_slice body (err e)
    held :
        (message : OutboundMessage) (id : Text) (answer : Answer)
        → IsAsked from_slice body message (some id)
        → Held s.operations id answer
        → Refuses s tokens authorization now from_slice body answer

  -- A request that is authorized is stopped by the limiter, by its body or by the registry.
  stopped-Refuses :
      (s : SendState S) (tokens : AuthTokens) (authorization : Option Text) (now : ℕ)
      (from_slice : List ℕ → Option SendMessageRequest) (body : List ℕ)
      (admission : Result (Unit {0}) StatusCode) (answer : Answer)
      → (authorize_mutation s.limiter now).1 ≡ admission
      → Stops s.operations (checked from_slice body admission) answer
      → Refuses s tokens authorization now from_slice body answer
  unfolding checked
  stopped-Refuses s tokens authorization now from_slice body (err x) _ a (not_valid e h) =
      over_rate e (a ∙ ap err (err_injective h))
  stopped-Refuses s tokens authorization now from_slice body (ok tt) _ a (not_valid e h) =
      spoiled e (checked-Spoils from_slice body e h)
  stopped-Refuses s tokens authorization now from_slice body (err x) answer a
        (not_begun message id _ h stop) =
      absurd (cc h)
  stopped-Refuses s tokens authorization now from_slice body (ok tt) answer a
        (not_begun message id _ h stop) =
      held message id answer (checked-IsAsked from_slice body message (some id) h).1 stop

  -- What the outcome of the backend makes of the registry, in which the operation has begun, and of
  -- the answer.
  pub data IsReported (operations : MessageOperationRegistry)
      : Option Text → SendOutcome → MessageOperationRegistry → Answer → Type 0 where
    sent_unnamed :
        IsReported operations none sent operations
          (ok (record { accepted = true; duplicate = false }))
    sent_as :
        (id : Text)
        → IsReported operations
            (some id)
            sent
            (accept operations id)
            (ok (record { accepted = true; duplicate = false }))
    unsent_unnamed : IsReported operations none not_sent operations (err bad_gateway)
    unsent_as :
        (id : Text)
        → IsReported operations (some id) not_sent (fail operations id) (err bad_gateway)
    lost_unnamed : IsReported operations none task_failed operations (err internal_server_error)
    lost_as :
        (id : Text)
        → IsReported operations
            (some id)
            task_failed
            (fail operations id)
            (err internal_server_error)

  reported-IsReported :
      (operations : MessageOperationRegistry) (operation_id : Option Text) (outcome : SendOutcome)
      → IsReported operations operation_id outcome
          (concluded send operations operation_id (is_ok (send_status outcome)))
          (send_status outcome >> ok (record { accepted = true; duplicate = false }))
  reported-IsReported operations none sent = sent_unnamed
  reported-IsReported operations none not_sent = unsent_unnamed
  reported-IsReported operations none task_failed = lost_unnamed
  reported-IsReported operations (some id) sent = sent_as id
  reported-IsReported operations (some id) not_sent = unsent_as id
  reported-IsReported operations (some id) task_failed = lost_as id

  -- One message was sent, for a new operation if it has an identifier; the answer is that of the
  -- backend, and the operation is concluded by it.
  pub record IsDelivery (s : SendState S) (message : OutboundMessage) (operation_id : Option Text)
      (r : SendState S × Answer) : Type 0 where
    pub fresh : IsNew s.operations operation_id
    pub called : r.0.backend ≡ (send s.backend message).0
    pub told :
        IsReported
          (begun_registry s.operations operation_id)
          operation_id
          (send s.backend message).1
          r.0.operations
          r.1

  begun-cases :
      (s : SendState S) (message : OutboundMessage) (id : Text)
      (start : MessageOperationRegistry × MessageOperationStart)
      → begin_operation s.operations id ≡ start
      → IsQuiet (Held s.operations id) s (begun send s message id start)
        ⊎ IsDelivery s message (some id) (begun send s message id start)
  begun-cases s message id (operations, accepted_duplicate) e = inl (record {
    backend_kept = refl;
    operations_kept = kept operations id accepted_duplicate s.operations e (λ h. absurd (cc h));
    told = is_sent (ap (λ p. p.1) e);
  })
  begun-cases s message id (operations, in_flight_already) e = inl (record {
    backend_kept = refl;
    operations_kept = kept operations id in_flight_already s.operations e (λ h. absurd (cc h));
    told = in_flight (ap (λ p. p.1) e);
  })
  begun-cases s message id (operations, new_operation) e = inr (record {
    fresh = ap (λ p. p.1) e;
    called = refl;
    told =
        subst
          (λ r.
            IsReported r (some id) (send s.backend message).1
              (concluded send operations (some id) (is_ok (send_status (send s.backend message).1)))
              (answer_of (send s.backend message).1))
          (sym (ap (λ p. p.0) e))
          (reported-IsReported operations (some id) (send s.backend message).1);
  })

  processed-cases :
      (s : SendState S) (valid : Result (OutboundMessage × Option Text) StatusCode)
      → IsQuiet (Stops s.operations valid) s (processed send s valid)
        ⊎ ((message : OutboundMessage) × (operation_id : Option Text) × (valid
              ≡ ok (message, operation_id))
            × IsDelivery s message operation_id (processed send s valid))
  processed-cases s (err e) =
      inl (record { backend_kept = refl; operations_kept = refl; told = not_valid e refl })
  processed-cases s (ok (message, none)) = inr (
    message,
    none,
    refl,
    record {
      fresh = tt;
      called = refl;
      told = reported-IsReported s.operations none (send s.backend message).1;
    },
  )
  processed-cases s (ok (message, some id)) =
      elim (begun-cases s message id (begin_operation s.operations id) refl) [
        | inl quiet ↦ inl (record {
          backend_kept = quiet.backend_kept;
          operations_kept = quiet.operations_kept;
          told = not_begun message id _ refl quiet.told;
        })
        | inr delivery ↦ inr (message, some id, refl, delivery)
      ]

  -- The guards that a message passes before it is sent.
  pub record IsAdmitted (s : SendState S) (tokens : AuthTokens) (authorization : Option Text)
      (now : ℕ) (from_slice : List ℕ → Option SendMessageRequest) (body : List ℕ)
      (message : OutboundMessage) (operation_id : Option Text) : Type 0 where
    pub authorized : authorize tokens authorization ≡ ok tt
    pub allowed : (authorize_mutation s.limiter now).1 ≡ ok tt
    pub valid : checked from_slice body (ok tt) ≡ ok (message, operation_id)
    pub small : length body ≤ 4096
    pub asked : IsAsked from_slice body message operation_id

  authorized-cases :
      (s : SendState S) (tokens : AuthTokens) (authorization : Option Text) (now : ℕ)
      (from_slice : List ℕ → Option SendMessageRequest) (body : List ℕ)
      (auth : Result (Unit {0}) StatusCode)
      → authorize tokens authorization ≡ auth
      → let r =
          processed send
            (admitted send s now auth).0
            (checked from_slice body (admitted send s now auth).1) in
        IsQuiet (Refuses s tokens authorization now from_slice body) s r
        ⊎ ((message : OutboundMessage) × (operation_id : Option Text) × IsAdmitted s tokens
              authorization now from_slice body message operation_id
            × IsDelivery s message operation_id r)
  unfolding checked
  authorized-cases s tokens authorization now from_slice body (err e) h =
      inl (record { backend_kept = refl; operations_kept = refl; told = not_authorized e h })
  authorized-cases s tokens authorization now from_slice body (ok done) h =
      let s' = record s { limiter = (authorize_mutation s.limiter now).0 } in
      let admission = (authorize_mutation s.limiter now).1 in
      elim (processed-cases s' (checked from_slice body admission)) [
        | inl q ↦ inl (record {
          backend_kept = q.backend_kept;
          operations_kept = q.operations_kept;
          told = stopped-Refuses s tokens authorization now from_slice body admission _ refl q.told;
        })
        | inr (message, operation_id, valid, d) ↦
            let (allowed, rest) = unit_ok admission _ valid in
            let (small, asked) = checked-IsAsked from_slice body message operation_id rest in
            inr (
              message,
              operation_id,
              record {
                authorized = h;
                allowed = allowed;
                valid = rest;
                small = small;
                asked = asked;
              },
              record { fresh = d.fresh; called = d.called; told = d.told },
            )
      ]

  -- Either nothing is sent, neither backend nor registry changes, and the answer is a refusal, of a
  -- request that is not authorized or over the rate, of a body that is too large (413), not parsed
  -- (400) or no valid message or identifier (422), or of an operation that is in flight (409), or it is
  -- the answer for a duplicate of an operation that was sent; or the request is authorized, the limiter allows it, its body has at most 4096
  -- bytes and asks for a valid message, and its
  -- operation is new if it has an identifier: then the backend is called once, with the message of the
  -- body. If it sent it, the answer is 202, for no duplicate, and the operation is recorded as
  -- accepted; if it did not, or its task was lost, the answer is 502 or 500, and the operation is
  -- recorded as failed.
  pub send_message_lem :
      (s : SendState S) (tokens : AuthTokens) (authorization : Option Text) (now : ℕ)
      (from_slice : List ℕ → Option SendMessageRequest) (body : List ℕ)
      → IsQuiet
          (Refuses s tokens authorization now from_slice body)
          s
          (send_message send s tokens authorization now from_slice body)
        ⊎ ((message : OutboundMessage) × (operation_id : Option Text) × IsAdmitted s tokens
              authorization now from_slice body message operation_id
            × IsDelivery s message operation_id
                (send_message send s tokens authorization now from_slice body))
  unfolding send_message
  send_message_lem s tokens authorization now from_slice body =
      authorized-cases s tokens authorization now from_slice body (authorize tokens authorization)
        refl

  -- The registry is one that requests have come to, in any interleaving, from an empty one of some
  -- capacity of one or more. A request's operation identifier is among those of the last messages
  -- sent, as many as the capacity. Then the request sends nothing.
  pub send_message-again :
      (capacity : ℕ) (events : List OperationEvent) (s : SendState S) (tokens : AuthTokens)
      (authorization : Option Text) (now : ℕ) (from_slice : List ℕ → Option SendMessageRequest)
      (body : List ℕ) (request : SendMessageRequest) (text id : Text)
      → 0 < capacity
      → s.operations ≡ (Operations.run (new_registry capacity, []) events).0
      → from_slice body ≡ some request
      → request.operation_id ≡ some text
      → new_operation_id text ≡ ok id
      → member id (newest capacity (Operations.run (new_registry capacity, []) events).1) ≡ true
      → (send_message send s tokens authorization now from_slice body).0.backend ≡ s.backend
  send_message-again capacity events s tokens authorization now from_slice body request text id
        positive reached parsed named valid remembered =
      elim (send_message_lem s tokens authorization now from_slice body) [
        | inl quiet ↦ quiet.backend_kept
        | inr (message, operation_id, a, d) ↦
            let e : operation_id ≡ some id =
              checked_id from_slice body request text id message operation_id parsed named valid
                a.valid in
            let fresh : (begin_operation s.operations id).1 ≡ new_operation =
              subst (IsNew s.operations) e d.fresh in
            let old = ((begin_operation-run capacity events id positive).0).1 remembered in
            let new = subst (λ r. (begin_operation r id).1 ≡ new_operation) reached fresh in
            absurd (cc (new, old))
      ]
