-- ===== src/Daemon/Server/Runtime/Session.antt =====
-- When a media session is created.
use analogconnect.Base.{none, ℕ, ◌*◌, ◌≡◌, Option, List, Result, ok, err}
use analogconnect.Base.Text.{Text}
use analogconnect.Core.State.Call
use analogconnect.Core.State.Call.{CallState}
use analogconnect.Core.State.AudioTransport
use analogconnect.Core.State.Status.{SystemStatus}
use analogconnect.Core.State.AudioTransport.{AudioTransportState, sco_active}
use analogconnect.Daemon.Auth.{AuthTokens}
use analogconnect.Daemon.MediaAuth.{Enrollment, second, issue}
use analogconnect.Daemon.Server.Guards.{
  StatusCode, conflict, service_unavailable, authorize, authorize_mutation,
}
use analogconnect.Daemon.Server.Runtime.{
  WirePlumberBackendError, HfpStatusSnapshot, Probe, SessionState,
}
use analogconnect.Daemon.Server.Runtime.Live.{IsCall, IsAudio}

-- A session is created: the request is authorized and within the rate of mutations, the call is
-- active and its audio up, and the session is issued for a minute.
abbrev pub IsCreated :
    {E : Type 0}
    → SessionState
    → AuthTokens
    → Option Text
    → ℕ
    → Option (List ℕ)
    → ℕ
    → Probe HfpStatusSnapshot WirePlumberBackendError
    → Probe AudioTransportState E
    → SessionState × Result Enrollment StatusCode
    → Type 0
IsCreated s tokens authorization requested_at random issued_at hfp audio (s', answer) =
    (enrollment : Enrollment) × (answer ≡ ok enrollment)
    × (authorize tokens authorization ≡ ok tt)
    × ((authorize_mutation s.limiter requested_at).1 ≡ ok tt)
    × IsAudio hfp audio s.status.audio
    × IsCall hfp s.status.call CallState.active
    × (issue s.media_sessions random (60 * second) issued_at ≡ (s'.media_sessions, ok enrollment))

-- The call is active and its audio is.
abbrev pub IsLive : SystemStatus → Type 0
IsLive status = (status.call ≡ CallState.active) × (status.audio ≡ sco_active)

-- Why an admitted request is refused, and the answer: the call or its audio is not active, or there
-- are no random bytes.
pub data Denies (status : SystemStatus) (random : Option (List ℕ)) : StatusCode → Type 0 where
  not_live : ¬ IsLive status → Denies status random conflict
  no_random : random ≡ none → Denies status random service_unavailable

-- Why a request is refused, with the status that its refresh reports, and the answer.
pub data Refuses (s : SessionState) (tokens : AuthTokens) (authorization : Option Text)
    (requested_at : ℕ) (status : SystemStatus) (random : Option (List ℕ))
    : StatusCode → Type 0 where
  not_authorized :
      (e : StatusCode)
      → authorize tokens authorization ≡ err e
      → Refuses s tokens authorization requested_at status random e
  over_rate :
      (e : StatusCode)
      → (authorize_mutation s.limiter requested_at).1 ≡ err e
      → Refuses s tokens authorization requested_at status random e
  not_admitted :
      (e : StatusCode)
      → Denies status random e
      → Refuses s tokens authorization requested_at status random e

-- Nothing is issued to an admitted request.
abbrev pub IsDenied :
    SessionState
    → SystemStatus
    → Option (List ℕ)
    → SessionState × Result Enrollment StatusCode
    → Type 0
IsDenied s status random (s', answer) =
    (e : StatusCode) × Denies status random e
    × (answer ≡ err e)
    × (s'.media_sessions ≡ s.media_sessions)

-- Nothing is issued: the answer is an error, for a reason.
abbrev pub IsRefused :
    SessionState
    → AuthTokens
    → Option Text
    → ℕ
    → SystemStatus
    → Option (List ℕ)
    → SessionState × Result Enrollment StatusCode
    → Type 0
IsRefused s tokens authorization requested_at status random (s', answer) =
    (e : StatusCode) × Refuses s tokens authorization requested_at status random e
    × (answer ≡ err e)
    × (s'.media_sessions ≡ s.media_sessions)
