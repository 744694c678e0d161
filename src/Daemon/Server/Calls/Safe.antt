-- ===== src/Daemon/Server/Calls/Safe.antt =====
-- The commands that requests ask for, and which of them `validate` lets pass.
use analogconnect.Base.{
  ℕ, ◌≡◌, ◌≤◌, ◌<◌, inl, inr, Bool, true, false, Bool-cases, not, [], ◌∷◌, ok, err, or_err, all,
  arith, Result-cases, bound, or_err-ok, ok_injective, ltb, leb, ◌==◌, ◌||◌, ◌&&◌, subst,
}
use analogconnect.Base.Text.{Text, len, trim, is_ascii_digit, to_ascii_uppercase}
use analogconnect.Core.Hfp.{
  CallCommand, DialTarget, DtmfTone, parse_dial_target, parse_dtmf_tone, is_dial_char,
  HfpArgumentError,
}
use analogconnect.Daemon.Server.Guards.{StatusCode, unprocessable_entity}
use analogconnect.Daemon.Server.Calls.{
  CallCommandRequest, answer, reject, hang_up, dial, send_dtmf, validate,
}

-- A command that is safe to give to the telephone.
abbrev pub IsSafe : CallCommand → Type 0
IsSafe CallCommand.answer = Unit {0}
IsSafe CallCommand.reject = Unit {0}
IsSafe CallCommand.hang_up = Unit {0}
IsSafe (CallCommand.dial target) =
    (0 < len target.as_str) × (len target.as_str ≤ 32) × (all is_dial_char target.as_str ≡ true)
IsSafe (CallCommand.send_dtmf tone) =
    ((is_ascii_digit tone.value
        || tone.value == b'*'
        || tone.value == b'#'
        || (leb b'A' tone.value && leb tone.value b'D'))
      ≡ true)
IsSafe (CallCommand.set_microphone_muted muted) = ⊥
IsSafe (CallCommand.set_speaker_gain gain) = ⊥
IsSafe (CallCommand.set_microphone_gain gain) = ⊥

abbrev unfit : Text → Bool
unfit text = len text == 0 || ltb 32 (len text) || not (all is_dial_char text)

fit-IsSafe :
    (text : Text) → unfit text ≡ false → IsSafe (CallCommand.dial (record { as_str = text }))
fit-IsSafe text h = (ground arith, ground arith, ground arith)

dial-IsSafe :
    (input : Text) (target : DialTarget)
    → parse_dial_target input ≡ ok target
    → IsSafe (CallCommand.dial target)
unfolding parse_dial_target
dial-IsSafe input target h = elim (Bool-cases (unfit (trim input))) [
  | inl t ↦ absurd (ground arith)
  | inr f ↦
      let same : record { as_str = trim input } ≡ target = ground arith in
      subst (λ t. IsSafe (CallCommand.dial t)) same (fit-IsSafe (trim input) f)
]

dtmf-IsSafe :
    (input : ℕ) (tone : DtmfTone)
    → parse_dtmf_tone input ≡ ok tone
    → IsSafe (CallCommand.send_dtmf tone)
unfolding parse_dtmf_tone
dtmf-IsSafe input tone h = ground arith

pub validate-IsSafe :
    (request : CallCommandRequest) (command : CallCommand)
    → validate request ≡ ok command
    → IsSafe command
unfolding validate
validate-IsSafe answer command h = subst IsSafe (ok_injective h) tt
validate-IsSafe reject command h = subst IsSafe (ok_injective h) tt
validate-IsSafe hang_up command h = subst IsSafe (ok_injective h) tt
validate-IsSafe (dial target) command h =
    let (t, e, h₁) = bound (or_err (parse_dial_target target) unprocessable_entity) _ h in
    subst IsSafe (ok_injective h₁) (dial-IsSafe target t (or_err-ok _ unprocessable_entity e))
validate-IsSafe (send_dtmf []) command h = absurd (cc h)
validate-IsSafe (send_dtmf (value ∷ [])) command h =
    let (t, e, h₁) = bound (or_err (parse_dtmf_tone value) unprocessable_entity) _ h in
    subst IsSafe (ok_injective h₁) (dtmf-IsSafe value t (or_err-ok _ unprocessable_entity e))
validate-IsSafe (send_dtmf (value ∷ other ∷ rest)) command h = absurd (cc h)

-- The command that a request asks for: a dial target is its text without the space around it, and
-- a tone its one character, in upper case.
pub data Requests : CallCommandRequest → CallCommand → Type 0 where
  to_answer : Requests answer CallCommand.answer
  to_reject : Requests reject CallCommand.reject
  to_hang_up : Requests hang_up CallCommand.hang_up
  to_dial : (text : Text) → Requests (dial text) (CallCommand.dial (record { as_str = trim text }))
  to_send_dtmf :
      (c : ℕ)
      → Requests
          (send_dtmf (c ∷ []))
          (CallCommand.send_dtmf (record { value = to_ascii_uppercase c }))

dial-Requests :
    (text : Text) (target : DialTarget)
    → parse_dial_target text ≡ ok target
    → Requests (dial text) (CallCommand.dial target)
unfolding parse_dial_target
dial-Requests text target h = elim (Bool-cases (unfit (trim text))) [
  | inl t ↦ absurd (ground arith)
  | inr f ↦
      let same : record { as_str = trim text } ≡ target = ground arith in
      subst (λ t. Requests (dial text) (CallCommand.dial t)) same (to_dial text)
]

dtmf-Requests :
    (c : ℕ) (tone : DtmfTone)
    → parse_dtmf_tone c ≡ ok tone
    → Requests (send_dtmf (c ∷ [])) (CallCommand.send_dtmf tone)
unfolding parse_dtmf_tone
dtmf-Requests c tone h =
    let same : record { value = to_ascii_uppercase c } ≡ tone = ground arith in
    subst (λ t. Requests (send_dtmf (c ∷ [])) (CallCommand.send_dtmf t)) same (to_send_dtmf c)

pub validate-Requests :
    (request : CallCommandRequest) (command : CallCommand)
    → validate request ≡ ok command
    → Requests request command
unfolding validate
validate-Requests answer command h = subst (Requests answer) (ok_injective h) to_answer
validate-Requests reject command h = subst (Requests reject) (ok_injective h) to_reject
validate-Requests hang_up command h = subst (Requests hang_up) (ok_injective h) to_hang_up
validate-Requests (dial text) command h =
    let (t, e, h₁) = bound (or_err (parse_dial_target text) unprocessable_entity) _ h in
    subst (Requests (dial text)) (ok_injective h₁)
      (dial-Requests text t (or_err-ok _ unprocessable_entity e))
validate-Requests (send_dtmf []) command h = absurd (cc h)
validate-Requests (send_dtmf (c ∷ [])) command h =
    let (t, e, h₁) = bound (or_err (parse_dtmf_tone c) unprocessable_entity) _ h in
    subst (Requests (send_dtmf (c ∷ []))) (ok_injective h₁)
      (dtmf-Requests c t (or_err-ok _ unprocessable_entity e))
validate-Requests (send_dtmf (c ∷ other ∷ rest)) command h = absurd (cc h)

-- A tone that a request names is one character.
abbrev HasTone : CallCommandRequest → Type 0
HasTone (send_dtmf []) = ⊥
HasTone (send_dtmf (c ∷ other ∷ rest)) = ⊥
HasTone request = Unit {0}

Requests-HasTone :
    {request : CallCommandRequest} {command : CallCommand}
    → Requests request command
    → HasTone request
Requests-HasTone to_answer = tt
Requests-HasTone to_reject = tt
Requests-HasTone to_hang_up = tt
Requests-HasTone (to_dial text) = tt
Requests-HasTone (to_send_dtmf c) = tt

-- No safe command is what a request asks for.
abbrev pub IsUnsafe : CallCommandRequest → Type 0
IsUnsafe request = (command : CallCommand) → Requests request command → ¬ IsSafe command

unsafe_dial :
    (text : Text)
    → unfit (trim text) ≡ true
    → ¬ IsSafe (CallCommand.dial (record { as_str = trim text }))
unsafe_dial text t (some_bytes, few, chars) = absurd (ground arith)

dial-IsUnsafe : (text : Text) → unfit (trim text) ≡ true → IsUnsafe (dial text)
dial-IsUnsafe text t command (to_dial _) = unsafe_dial text t

dtmf-IsUnsafe :
    (c : ℕ) (e : HfpArgumentError) → parse_dtmf_tone c ≡ err e → IsUnsafe (send_dtmf (c ∷ []))
unfolding parse_dtmf_tone
dtmf-IsUnsafe c e h command (to_send_dtmf _) safe = absurd (ground arith)

-- What `validate` refuses, it refuses as no safe command, with 422.
pub validate-IsUnsafe :
    (request : CallCommandRequest) (e : StatusCode)
    → validate request ≡ err e
    → (e ≡ unprocessable_entity) × IsUnsafe request
unfolding validate parse_dial_target
validate-IsUnsafe answer e h = absurd (cc h)
validate-IsUnsafe reject e h = absurd (cc h)
validate-IsUnsafe hang_up e h = absurd (cc h)
validate-IsUnsafe (dial text) e h = elim (Bool-cases (unfit (trim text))) [
  | inl t ↦ (ground arith, dial-IsUnsafe text t)
  | inr f ↦ absurd (ground arith)
]
validate-IsUnsafe (send_dtmf []) e h = (ground arith, λ command r safe. Requests-HasTone r)
validate-IsUnsafe (send_dtmf (c ∷ [])) e h = elim (Result-cases (parse_dtmf_tone c)) [
  | inl (tone, found) ↦ absurd (ground arith)
  | inr (e', found) ↦ (ground arith, dtmf-IsUnsafe c e' found)
]
validate-IsUnsafe (send_dtmf (c ∷ other ∷ rest)) e h =
    (ground arith, λ command r safe. Requests-HasTone r)
