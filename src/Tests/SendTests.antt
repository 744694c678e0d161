-- ===== src/Tests/SendTests.antt =====
-- `send_message` of crates/analogconnectd/src/lib.rs.
use analogconnect.Base.{
  ℕ, suc, ◌≡◌, ◌⊎◌, refl, true, Option, none, some, List, [], ◌∷◌, ok, err, replicate, arith,
  newest,
}
use analogconnect.Base.Text.{
  Text, chars, as_bytes, len, same, trim, member, is_ascii_hexdigit, to_ascii_lowercase,
}
use analogconnect.Daemon.Auth.{
  AuthTokens, allow_at, matches_tokens, matches_token, only_current, new_limiter,
}
use analogconnect.Daemon.Messages.Operations
use analogconnect.Daemon.Messages.Operations.{
  OutboundMessage, OperationEvent, begins, ends, new_registry, new_message, new_operation_id,
  begin_operation, expire, accept,
}
use analogconnect.Daemon.Server.Guards.{authorize, authorize_mutation, strip_prefix, unauthorized}
use analogconnect.Daemon.Server.Messages.{
  SendMessageRequest, SendOutcome, sent, SendState, checked, send_message,
}
use analogconnect.Daemon.Server.Messages.Once.{
  IsQuiet, Refuses, IsAdmitted, IsDelivery, send_message_lem, send_message-again,
}

-- A backend that counts what it sends.
abbrev counting : ℕ → OutboundMessage → ℕ × SendOutcome
counting n message = (suc n, sent)

abbrev tokens : AuthTokens
tokens = only_current (record { token_bytes = chars "secret" })

abbrev bearer : Option Text
bearer = some (chars "Bearer secret")

abbrev operation : Text
operation = replicate 32 b'a'

abbrev request : SendMessageRequest
request = record { recipient = chars "+15550100"; body = chars "hi"; operation_id = some operation }

abbrev parser : List ℕ → Option SendMessageRequest
parser bytes = some request

abbrev events : List OperationEvent
events = begins operation ∷ ends operation true ∷ []

abbrev start : SendState ℕ
start = record { limiter = new_limiter 5 1000 0; operations = new_registry 2; backend = 0 }

abbrev done_before : SendState ℕ
done_before = record start { operations = (Operations.run (new_registry 2, []) events).0 }

send_message_lem_example :
    IsQuiet counting
      (Refuses counting start tokens bearer 1 parser [])
      start
      (send_message counting start tokens bearer 1 parser [])
    ⊎ ((message : OutboundMessage) × (operation_id : Option Text) × IsAdmitted counting start tokens
          bearer 1 parser [] message operation_id
        × IsDelivery counting start message operation_id
            (send_message counting start tokens bearer 1 parser []))
send_message_lem_example = send_message_lem counting start tokens bearer 1 parser []

first_sends : (send_message counting start tokens bearer 1 parser []).0.backend ≡ 1
unfolding send_message checked authorize authorize_mutation strip_prefix matches_tokens
    matches_token as_bytes same allow_at new_limiter new_message new_operation_id len trim
    is_ascii_hexdigit to_ascii_lowercase begin_operation new_registry member
first_sends = refl

unknown_bearer : (send_message counting start tokens none 1 parser []).1 ≡ err unauthorized
unfolding send_message checked authorize
unknown_bearer = refl

good_id : new_operation_id operation ≡ ok operation
unfolding new_operation_id len as_bytes is_ascii_hexdigit to_ascii_lowercase
good_id = refl

remembered : member operation (newest 2 (Operations.run (new_registry 2, []) events).1) ≡ true
unfolding Operations.run Operations.step begin_operation new_registry accept expire member same
remembered = refl

send_message-again_example :
    (send_message counting done_before tokens bearer 1 parser []).0.backend ≡ 0
send_message-again_example =
    send_message-again counting 2 events done_before tokens bearer 1 parser [] request operation
      operation (omega arith) refl refl refl good_id remembered
