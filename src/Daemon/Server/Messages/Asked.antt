-- ===== src/Daemon/Server/Messages/Asked.antt =====
-- What a checked request asks `send_message` for.
use analogconnect.Base.{
  none, err, ◌<◌, inl, inr, Result-cases, Bool-cases, Option-cases, subst, Result, ℕ, ◌≤◌, ◌≡◌,
  arith, sym, ap, ◌∙◌, Option, some, List, ok, ◌>>=◌, bound, ok_injective, ok_or, ok_or-ok, passed,
  not, ltb, length,
}
use analogconnect.Base.Text.{Text}
use analogconnect.Daemon.Messages.Operations.{
  OutboundMessage, OutboundMessageError, new_message, new_operation_id,
}
use analogconnect.Daemon.Server.Guards.{
  StatusCode, unprocessable_entity, payload_too_large, bad_request, map_err-ok, map_err,
}
use analogconnect.Daemon.Server.Messages.{
  SendMessageRequest, any_error, parse_operation_id, checked,
}

pub checked_id :
    (from_slice : List ℕ → Option SendMessageRequest) (body : List ℕ) (request : SendMessageRequest)
    (text id : Text) (message : OutboundMessage) (operation_id : Option Text)
    → from_slice body ≡ some request
    → request.operation_id ≡ some text
    → new_operation_id text ≡ ok id
    → checked from_slice body (ok tt) ≡ ok (message, operation_id)
    → operation_id ≡ some id
unfolding checked
checked_id from_slice body request text id message operation_id parsed named valid h =
    let (few, h₁) = passed (not (ltb 4096 (length body))) payload_too_large _ h in
    let (found, e₁, h₂) = bound (ok_or (from_slice body) bad_request) _ h₁ in
    let same : request ≡ found = ok_injective (ap (λ o. ok_or o bad_request) (sym parsed) ∙ e₁) in
    let (made, e₂, h₃) = bound (map_err any_error (new_message found.recipient found.body)) _ h₂ in
    let (named', e₃, h₄) = bound (map_err any_error (parse_operation_id found.operation_id)) _ h₃ in
    let id_text : found.operation_id ≡ some text = ap (λ r. r.operation_id) (sym same) ∙ named in
    let known : map_err any_error (parse_operation_id found.operation_id) ≡ ok (some id) =
      ap (λ o. map_err any_error (parse_operation_id o)) id_text
      ∙ ap (λ r. map_err any_error (r >>= λ i. ok (some i))) valid in
    ap (λ (p : OutboundMessage × Option Text). p.1) (sym (ok_injective h₄))
    ∙ ok_injective (sym e₃ ∙ known)

-- The body is a request for a message, under an operation identifier if it names one.
abbrev pub IsAsked :
    (List ℕ → Option SendMessageRequest) → List ℕ → OutboundMessage → Option Text → Type 0
IsAsked from_slice body message operation_id =
    (request : SendMessageRequest) × (from_slice body ≡ some request)
    × (new_message request.recipient request.body ≡ ok message)
    × (parse_operation_id request.operation_id ≡ ok operation_id)

pub checked-IsAsked :
    (from_slice : List ℕ → Option SendMessageRequest) (body : List ℕ) (message : OutboundMessage)
    (operation_id : Option Text)
    → checked from_slice body (ok tt) ≡ ok (message, operation_id)
    → (length body ≤ 4096) × IsAsked from_slice body message operation_id
unfolding checked
checked-IsAsked from_slice body message operation_id h =
    let (few, h₁) = passed (not (ltb 4096 (length body))) payload_too_large _ h in
    let (request, e₁, h₂) = bound (ok_or (from_slice body) bad_request) _ h₁ in
    let (made, e₂, h₃) =
      bound (map_err any_error (new_message request.recipient request.body)) _ h₂ in
    let (id, e₃, h₄) = bound (map_err any_error (parse_operation_id request.operation_id)) _ h₃ in
    let same : (made, id) ≡ (message, operation_id) = ok_injective h₄ in
    (
      ground arith,
      (
        request,
        ok_or-ok (from_slice body) bad_request e₁,
        map_err-ok _ any_error e₂ ∙ ap (λ p. ok p.0) same,
        map_err-ok _ any_error e₃ ∙ ap (λ p. ok p.1) same,
      ),
    )

-- Why a body asks for no valid message, and the answer.
pub data Spoils (from_slice : List ℕ → Option SendMessageRequest) (body : List ℕ)
    : StatusCode → Type 0 where
  too_large : 4096 < length body → Spoils from_slice body payload_too_large
  not_parsed : from_slice body ≡ none → Spoils from_slice body bad_request
  no_message :
      (request : SendMessageRequest) (e : OutboundMessageError)
      → from_slice body ≡ some request
      → new_message request.recipient request.body ≡ err e
      → Spoils from_slice body unprocessable_entity
  no_operation :
      (request : SendMessageRequest) (e : OutboundMessageError)
      → from_slice body ≡ some request
      → parse_operation_id request.operation_id ≡ err e
      → Spoils from_slice body unprocessable_entity

abbrev asked_of : SendMessageRequest → Result (OutboundMessage × Option Text) StatusCode
asked_of request = do
  message ← map_err any_error (new_message request.recipient request.body)
  operation_id ← map_err any_error (parse_operation_id request.operation_id)
  ok (message, operation_id)

parsed-Spoils :
    (from_slice : List ℕ → Option SendMessageRequest) (body : List ℕ) (request : SendMessageRequest)
    (e : StatusCode)
    → from_slice body ≡ some request
    → asked_of request ≡ err e
    → Spoils from_slice body e
parsed-Spoils from_slice body request e p h =
    elim (Result-cases (new_message request.recipient request.body)) [
      | inr (x, f) ↦ subst (Spoils from_slice body) (ground arith) (no_message request x p f)
      | inl (message, f) ↦ elim (Result-cases (parse_operation_id request.operation_id)) [
        | inr (x, g) ↦ subst (Spoils from_slice body) (ground arith) (no_operation request x p g)
        | inl (id, g) ↦ absurd (ground arith)
      ]
    ]

pub checked-Spoils :
    (from_slice : List ℕ → Option SendMessageRequest) (body : List ℕ) (e : StatusCode)
    → checked from_slice body (ok tt) ≡ err e
    → Spoils from_slice body e
unfolding checked
checked-Spoils from_slice body e h = elim (Bool-cases (ltb 4096 (length body))) [
  | inl t ↦ subst (Spoils from_slice body) (ground arith) (too_large (ground arith))
  | inr f ↦ elim (Option-cases (from_slice body)) [
    | inl n ↦ subst (Spoils from_slice body) (ground arith) (not_parsed n)
    | inr (request, p) ↦ parsed-Spoils from_slice body request e p (ground arith)
  ]
]
