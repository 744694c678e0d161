-- ===== src/Daemon/Server/Calls/Executed.antt =====
-- Which commands `execute_call_command` gives to its backend, and what it answers.
use analogconnect.Base.{
  ◌>>=◌, sym, err_injective, none, ℕ, ◌≡◌, ◌≤◌, ◌<◌, ◌⊎◌, refl, inl, inr, Bool, true, Bool-cases,
  not, Option, some, List, Result, ok, err, ok_or, ok_or-ok, arith, Result-cases, bound, passed,
  ltb, length, subst,
}
use analogconnect.Base.Text.{Text}
use analogconnect.Core.Hfp.{CallCommand}
use analogconnect.Daemon.Auth.{AuthTokens}
use analogconnect.Daemon.Server.Guards.{
  StatusCode, bad_request, payload_too_large, unprocessable_entity, bad_gateway,
  internal_server_error, authorize, authorize_mutation,
}
use analogconnect.Daemon.Server.Calls.{
  CallCommandRequest, validate, Execution, executed, backend_failed, lost, execution_status,
  requested, CommandState, execute_call_command,
}
use analogconnect.Daemon.Server.Calls.Safe.{
  IsSafe, Requests, IsUnsafe, validate-IsSafe, validate-Requests, validate-IsUnsafe,
}

-- The answer to what the backend did: accepted, 502 or 500.
pub data Answers : Execution → Result Bool StatusCode → Type 0 where
  to_executed : Answers executed (ok true)
  to_failed : Answers backend_failed (err bad_gateway)
  to_lost : Answers lost (err internal_server_error)

execution_status-Answers : (execution : Execution) → Answers execution (execution_status execution)
execution_status-Answers executed = to_executed
execution_status-Answers backend_failed = to_failed
execution_status-Answers lost = to_lost

-- Why a request is refused, and the status of the answer.
pub data Refuses {B : Type 0} (s : CommandState B) (tokens : AuthTokens)
    (authorization : Option Text) (now : ℕ) (from_slice : List ℕ → Option CallCommandRequest)
    (body : List ℕ) : StatusCode → Type 0 where
  not_authorized :
      (e : StatusCode)
      → authorize tokens authorization ≡ err e
      → Refuses s tokens authorization now from_slice body e
  over_rate :
      (e : StatusCode)
      → (authorize_mutation s.limiter now).1 ≡ err e
      → Refuses s tokens authorization now from_slice body e
  too_large :
      1024 < length body → Refuses s tokens authorization now from_slice body payload_too_large
  not_parsed :
      from_slice body ≡ none → Refuses s tokens authorization now from_slice body bad_request
  not_safe :
      (request : CallCommandRequest)
      → from_slice body ≡ some request
      → IsUnsafe request
      → Refuses s tokens authorization now from_slice body unprocessable_entity

-- Nothing is asked of the backend: the answer is an error, for a reason.
abbrev pub IsRefused :
    {B : Type 0}
    → CommandState B
    → AuthTokens
    → Option Text
    → ℕ
    → (List ℕ → Option CallCommandRequest)
    → List ℕ
    → CommandState B × Result Bool StatusCode
    → Type 0
IsRefused s tokens authorization now from_slice body (s', result) =
    (e : StatusCode) × Refuses s tokens authorization now from_slice body e
    × (result ≡ err e)
    × (s'.backend ≡ s.backend)

parsed-Refuses :
    {B : Type 0} (s : CommandState B) (tokens : AuthTokens) (authorization : Option Text) (now : ℕ)
    (from_slice : List ℕ → Option CallCommandRequest) (body : List ℕ)
    (parsed : Option CallCommandRequest) (e : StatusCode)
    → from_slice body ≡ parsed
    → (ok_or parsed bad_request >>= λ request. validate request) ≡ err e
    → Refuses s tokens authorization now from_slice body e
parsed-Refuses s tokens authorization now from_slice body none e p h =
    subst (Refuses s tokens authorization now from_slice body) (err_injective h) (not_parsed p)
parsed-Refuses s tokens authorization now from_slice body (some request) e p h =
    let (same, unsafe) = validate-IsUnsafe request e h in
    subst (Refuses s tokens authorization now from_slice body) (sym same)
      (not_safe request p unsafe)

requested-Refuses :
    {B : Type 0} (s : CommandState B) (tokens : AuthTokens) (authorization : Option Text) (now : ℕ)
    (from_slice : List ℕ → Option CallCommandRequest) (body : List ℕ) (e : StatusCode)
    → requested from_slice body ≡ err e
    → Refuses s tokens authorization now from_slice body e
unfolding requested
requested-Refuses s tokens authorization now from_slice body e h =
    elim (Bool-cases (ltb 1024 (length body))) [
      | inl t ↦
          let same : payload_too_large ≡ e = ground arith in
          subst (Refuses s tokens authorization now from_slice body) same (too_large (ground arith))
      | inr f ↦
          parsed-Refuses s tokens authorization now from_slice body (from_slice body) e refl
            (ground arith)
    ]

-- The backend is asked once, for the command of the request, which is safe.
abbrev pub IsExecuted :
    {B : Type 0}
    → (B → CallCommand → B × Execution)
    → CommandState B
    → AuthTokens
    → Option Text
    → ℕ
    → (List ℕ → Option CallCommandRequest)
    → List ℕ
    → CommandState B × Result Bool StatusCode
    → Type 0
IsExecuted execute s tokens authorization now from_slice body (s', result) =
    (request : CallCommandRequest) × (command : CallCommand) × (authorize tokens authorization
      ≡ ok tt)
    × ((authorize_mutation s.limiter now).1 ≡ ok tt)
    × (length body ≤ 1024)
    × (from_slice body ≡ some request)
    × Requests request command
    × IsSafe command
    × (s'.backend ≡ (execute s.backend command).0)
    × Answers (execute s.backend command).1 result

requested_sound :
    (from_slice : List ℕ → Option CallCommandRequest) (body : List ℕ) (command : CallCommand)
    → requested from_slice body ≡ ok command
    → (request : CallCommandRequest) × (length body ≤ 1024)
      × (from_slice body ≡ some request)
      × (validate request ≡ ok command)
unfolding requested
requested_sound from_slice body command h =
    let (few, h₁) = passed (not (ltb 1024 (length body))) payload_too_large _ h in
    let (request, e, h₂) = bound (ok_or (from_slice body) bad_request) _ h₁ in
    (request, ground arith, ok_or-ok (from_slice body) bad_request e, h₂)

-- `execute_call_command` answers an error and asks nothing of its backend, for a request that is not
-- authorized, is over the rate of mutations, has more than 1024 bytes (413), is not parsed (400) or
-- names no safe command (422); or it asks the backend once, for
-- the command that an authorized request within the rate of mutations, of at most 1024 bytes, asks
-- for: to answer, to reject, to hang up, to dial one to 32 digits and dial characters, or to send a
-- tone of the keypad. Then it answers that it was accepted if the backend executed it, 502 if the
-- backend failed, and 500 if its thread was lost.
pub execute_call_command_lem :
    {B : Type 0} (execute : B → CallCommand → B × Execution) (s : CommandState B)
    (tokens : AuthTokens) (authorization : Option Text) (now : ℕ)
    (from_slice : List ℕ → Option CallCommandRequest) (body : List ℕ)
    → IsRefused s tokens authorization now from_slice body
        (execute_call_command execute s tokens authorization now from_slice body)
      ⊎ IsExecuted execute s tokens authorization now from_slice body
          (execute_call_command execute s tokens authorization now from_slice body)
unfolding execute_call_command
execute_call_command_lem execute s tokens authorization now from_slice body =
    elim (Result-cases (authorize tokens authorization)) [
      | inr (e, f) ↦ inl (e, not_authorized e f, rw f refl, rw f refl)
      | inl (_, f) ↦ elim (Result-cases (authorize_mutation s.limiter now).1) [
        | inr (e, g) ↦ inl (e, over_rate e g, rw (f, g) refl, rw (f, g) refl)
        | inl (_, g) ↦ elim (Result-cases (requested from_slice body)) [
          | inr (e, h) ↦ inl (
            e,
            requested-Refuses s tokens authorization now from_slice body e h,
            rw (f, g, h) refl,
            rw (f, g, h) refl,
          )
          | inl (command, h) ↦
              let (request, few, parsed, valid) = requested_sound from_slice body command h in
              inr (
                request,
                command,
                f,
                g,
                few,
                parsed,
                validate-Requests request command valid,
                validate-IsSafe request command valid,
                rw (f, g, h) refl,
                rw (f, g, h) (execution_status-Answers (execute s.backend command).1),
              )
        ]
      ]
    ]
