-- ===== src/Daemon/Server/Messages.antt =====
-- `send_message`. The parser of the request's body and the backend that sends a message are arguments:
-- the backend has a state, and tells whether its task ended and whether the message was sent. One
-- request is answered at a time; the interleaving of requests is that of the registry's events.
pub mod Asked
pub mod Once
use analogconnect.Base.{
  ℕ, Bool, true, false, not, Option, none, some, List, Result, ok, err, ◌>>=◌, ◌>>◌, ensure, ok_or,
  length, ltb, is_ok,
}
use analogconnect.Base.Text.{Text}
use analogconnect.Daemon.Auth.{AuthTokens, MutationLimiter}
use analogconnect.Daemon.Messages.Operations.{
  OutboundMessage, OutboundMessageError, new_message, new_operation_id, MessageOperationStart,
  new_operation, in_flight_already, accepted_duplicate, MessageOperationRegistry, begin_operation,
  accept, fail,
}
use analogconnect.Daemon.Server.Guards.{
  StatusCode, payload_too_large, bad_request, unprocessable_entity, conflict, internal_server_error,
  bad_gateway, authorize, authorize_mutation, map_err,
}

-- The response, with status 202.
pub record SendMessageResponse : Type 0 where
  pub accepted : Bool
  pub duplicate : Bool

pub record SendMessageRequest : Type 0 where
  pub recipient : Text
  pub body : Text
  pub operation_id : Option Text

-- `spawn_blocking` and `send`: the task fails, or it ends with a result of the backend.
pub data SendOutcome : Type 0 where
  task_failed not_sent sent : SendOutcome

abbrev pub send_status : SendOutcome → Result (Unit {0}) StatusCode
send_status task_failed = err internal_server_error
send_status not_sent = err bad_gateway
send_status sent = ok tt

-- `map(MessageOperationId::new).transpose()`.
abbrev pub parse_operation_id : Option Text → Result (Option Text) OutboundMessageError
parse_operation_id none = ok none
parse_operation_id (some text) = new_operation_id text >>= λ id. ok (some id)

abbrev pub any_error : OutboundMessageError → StatusCode
any_error e = unprocessable_entity

-- The checks up to the registry, once the limiter has admitted the mutation.
unfoldable pub checked :
    (List ℕ → Option SendMessageRequest)
    → List ℕ
    → Result (Unit {0}) StatusCode
    → Result (OutboundMessage × Option Text) StatusCode
checked from_slice body admitted = do
  admitted
  ensure (not (ltb 4096 (length body))) payload_too_large
  request ← ok_or (from_slice body) bad_request
  message ← map_err any_error (new_message request.recipient request.body)
  operation_id ← map_err any_error (parse_operation_id request.operation_id)
  ok (message, operation_id)

-- What the handler keeps, with the state of the backend.
pub record SendState (S : Type 0) : Type 0 where
  pub limiter : MutationLimiter
  pub operations : MessageOperationRegistry
  pub backend : S

abbrev pub Answer : Type 0
Answer = Result SendMessageResponse StatusCode

module _ {S : Type 0} (send : S → OutboundMessage → S × SendOutcome) where
  abbrev pub concluded : MessageOperationRegistry → Option Text → Bool → MessageOperationRegistry
  concluded operations none succeeded = operations
  concluded operations (some id) true = accept operations id
  concluded operations (some id) false = fail operations id

  abbrev pub reported : SendState S → Option Text → S × SendOutcome → SendState S × Answer
  reported s operation_id (backend, outcome) =
      let result = send_status outcome in
      (
        record s {
          operations = concluded s.operations operation_id (is_ok result);
          backend = backend;
        },
        result >> ok (record { accepted = true; duplicate = false }),
      )

  abbrev pub delivered : SendState S → OutboundMessage → Option Text → SendState S × Answer
  delivered s message operation_id = reported s operation_id (send s.backend message)

  abbrev pub begun :
      SendState S
      → OutboundMessage
      → Text
      → MessageOperationRegistry × MessageOperationStart
      → SendState S × Answer
  begun s message id (operations, accepted_duplicate) =
      (record s { operations = operations }, ok (record { accepted = true; duplicate = true }))
  begun s message id (operations, in_flight_already) =
      (record s { operations = operations }, err conflict)
  begun s message id (operations, new_operation) =
      delivered (record s { operations = operations }) message (some id)

  abbrev pub processed :
      SendState S → Result (OutboundMessage × Option Text) StatusCode → SendState S × Answer
  processed s (err e) = (s, err e)
  processed s (ok (message, none)) = delivered s message none
  processed s (ok (message, some id)) = begun s message id (begin_operation s.operations id)

  -- `authorize_mutation`, only once the request is authorized.
  abbrev pub admitted :
      SendState S → ℕ → Result (Unit {0}) StatusCode → SendState S × Result (Unit {0}) StatusCode
  admitted s now (err e) = (s, err e)
  admitted s now (ok done) =
      let (limiter, result) = authorize_mutation s.limiter now in
      (record s { limiter = limiter }, result)

  unfoldable pub send_message :
      SendState S
      → AuthTokens
      → Option Text
      → ℕ
      → (List ℕ → Option SendMessageRequest)
      → List ℕ
      → SendState S × Answer
  unfolding checked
  send_message s tokens authorization now from_slice body =
      let (s', admission) = admitted s now (authorize tokens authorization) in
      processed s' (checked from_slice body admission)
