-- ===== src/Daemon/Server/Calls.antt =====
-- `CallCommandRequest` and `execute_call_command` of crates/analogconnectd/src/lib.rs. The parser
-- of a request's body is an argument, and so is the backend: a state and a function that executes
-- a command and returns what its thread did, or that the thread was lost.
pub mod Safe
pub mod Executed
use analogconnect.Base.{
  ℕ, Bool, true, not, Option, List, [], ◌∷◌, Result, ok, err, ◌>>=◌, ◌>>◌, ensure, ok_or, or_err,
  ltb, length,
}
use analogconnect.Base.Text.{Text}
use analogconnect.Core.Hfp
use analogconnect.Core.Hfp.{CallCommand, DialTarget, DtmfTone, parse_dial_target, parse_dtmf_tone}
use analogconnect.Daemon.Auth.{AuthTokens, MutationLimiter}
use analogconnect.Daemon.Server.Guards.{
  StatusCode, bad_request, payload_too_large, unprocessable_entity, internal_server_error,
  bad_gateway, authorize, authorize_mutation,
}

pub data CallCommandRequest : Type 0 where
  answer reject hang_up : CallCommandRequest
  dial : Text → CallCommandRequest
  send_dtmf : Text → CallCommandRequest

-- A tone is one character.
unfoldable pub validate : CallCommandRequest → Result CallCommand StatusCode
validate answer = ok CallCommand.answer
validate reject = ok CallCommand.reject
validate hang_up = ok CallCommand.hang_up
validate (dial target) =
    or_err (parse_dial_target target) unprocessable_entity >>= λ t. ok (CallCommand.dial t)
validate (send_dtmf []) = err unprocessable_entity
validate (send_dtmf (value ∷ [])) =
    or_err (parse_dtmf_tone value) unprocessable_entity >>= λ t. ok (CallCommand.send_dtmf t)
validate (send_dtmf (value ∷ other ∷ rest)) = err unprocessable_entity

-- What the backend's thread returned: whether the command succeeded, or that it was lost.
pub data Execution : Type 0 where
  executed backend_failed lost : Execution

-- `accepted` of the response.
abbrev pub execution_status : Execution → Result Bool StatusCode
execution_status executed = ok true
execution_status backend_failed = err bad_gateway
execution_status lost = err internal_server_error

unfoldable pub requested :
    (List ℕ → Option CallCommandRequest) → List ℕ → Result CallCommand StatusCode
requested from_slice body = do
  ensure (not (ltb 1024 (length body))) payload_too_large
  request ← ok_or (from_slice body) bad_request
  validate request

pub record CommandState {ℓ} (B : Type ℓ) : Type ℓ where
  pub limiter : MutationLimiter
  pub backend : B

module _ {B : Type 0} (execute : B → CallCommand → B × Execution) where
  abbrev pub commanded :
      CommandState B → Result CallCommand StatusCode → CommandState B × Result Bool StatusCode
  commanded s (err e) = (s, err e)
  commanded s (ok command) =
      let (backend, execution) = execute s.backend command in
      (record s { backend = backend }, execution_status execution)

  -- Once the request is authorized.
  abbrev pub limited :
      CommandState B
      → Result (Unit {0}) StatusCode
      → ℕ
      → Result CallCommand StatusCode
      → CommandState B × Result Bool StatusCode
  limited s (err e) now command = (s, err e)
  limited s (ok done) now command =
      let (limiter, admission) = authorize_mutation s.limiter now in
      commanded (record s { limiter = limiter }) (admission >> command)

  unfoldable pub execute_call_command :
      CommandState B
      → AuthTokens
      → Option Text
      → ℕ
      → (List ℕ → Option CallCommandRequest)
      → List ℕ
      → CommandState B × Result Bool StatusCode
  execute_call_command s tokens authorization now from_slice body =
      limited s (authorize tokens authorization) now (requested from_slice body)
