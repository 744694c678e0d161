-- ===== src/Daemon/Server/Runtime.antt =====
-- `refresh_runtime_status` and `create_audio_session` of crates/analogconnectd/src/lib.rs: the
-- status that the backends report, and the media session that it admits. What a backend reports in
-- a refresh is an argument: nothing if none is configured, else what its thread returned, or that it
-- did not return. So are the time of each step and the random bytes. Here the lock of the watchdog
-- may be poisoned. The handler's refresh and its check of the status are one step: what another task
-- makes of the status between, when its lock is released, is not modelled. The handler's headers and
-- its answer's constant format are left out.
pub mod Live
pub mod Session
use analogconnect.Base.{
  ℕ, ◌*◌, Bool, true, false, ◌||◌, not, Option, none, some, List, Result, ok, err, ◌>>=◌, ensure,
  or_err, ◌==◌, if◌then◌else◌,
}
use analogconnect.Base.Text.{Text, chars, same}
use analogconnect.Core.State.HfpControl
use analogconnect.Core.State.HfpControl.{HfpControlState}
use analogconnect.Core.State.Call
use analogconnect.Core.State.Call.{CallState}
use analogconnect.Core.State.AudioTransport
use analogconnect.Core.State.AudioTransport.{AudioTransportState, inactive, sco_active, error}
use analogconnect.Core.State.Status.{RedactedError, SystemStatus}
use analogconnect.Daemon.Auth.{AuthTokens, MutationLimiter}
use analogconnect.Daemon.Audio.Watchdog.{ScoTeardownWatchdog, ScoTeardownObservation, observe}
use analogconnect.Daemon.MediaAuth.{Registry, RegistryError, Enrollment, second, issue}
use analogconnect.Daemon.Server.Guards.{
  StatusCode, conflict, service_unavailable, authorize, authorize_mutation,
}

pub data WirePlumberBackendError : Type 0 where
  unavailable ambiguous unsupported rejected : WirePlumberBackendError

pub record HfpStatusSnapshot : Type 0 where
  pub control : HfpControlState
  pub call : CallState
  pub transport : AudioTransportState

-- What `spawn_blocking(...).await` gives of a backend that may be there.
abbrev pub Probe : Type 0 → Type 0 → Type 0
Probe S E = Option (Result (Result S E) (Unit {0}))

-- The status with the control and the call of the snapshot, and the transport that it reports.
unfoldable pub with_hfp :
    SystemStatus
    → Probe HfpStatusSnapshot WirePlumberBackendError
    → SystemStatus × Option AudioTransportState
with_hfp status none = (status, none)
with_hfp status (some (ok (ok snapshot))) = (
  record status { hfp_control = snapshot.control; call = snapshot.call },
  some snapshot.transport,
)
with_hfp status (some (ok (err unavailable))) = (
  record status { hfp_control = HfpControlState.disconnected; call = CallState.idle },
  some inactive,
)
with_hfp status (some (ok (err e))) =
    (record status { hfp_control = HfpControlState.error; call = CallState.error }, some error)
with_hfp status (some (err lost)) =
    (record status { hfp_control = HfpControlState.error; call = CallState.error }, some error)

unfoldable pub merged_audio : AudioTransportState → Option AudioTransportState → AudioTransportState
merged_audio inactive transport = inactive
merged_audio nodes (some inactive) = inactive
merged_audio sco_active (some sco_active) = sco_active
merged_audio sco_active none = sco_active
merged_audio nodes transport = error

unfoldable pub with_audio :
    {E : Type 0}
    → SystemStatus
    → Option AudioTransportState
    → Probe AudioTransportState E
    → SystemStatus
unfolding merged_audio
with_audio status transport none = status
with_audio status transport (some (ok (ok nodes))) = record status {
  audio = merged_audio nodes transport;
}
with_audio status transport (some (ok (err e))) = record status { audio = error }
with_audio status transport (some (err lost)) = record status { audio = error }

abbrev pub stalled_code : Text
stalled_code = chars "sco_teardown_stalled"

abbrev pub stalled_error : RedactedError
stalled_error = record {
  code = stalled_code;
  summary = chars "call audio did not stop after the call ended";
}

abbrev pub is_stalled_error : Option RedactedError → Bool
is_stalled_error none = false
is_stalled_error (some e) = same e.code stalled_code

unfoldable pub with_observation : SystemStatus → ScoTeardownObservation → SystemStatus
unfolding same
with_observation status observation = record status {
  audio = observation.state;
  last_error =
      if observation.stalled
      then some stalled_error
      else if is_stalled_error status.last_error
      then none
      else status.last_error;
}

-- The watchdog's lock: nothing if it is poisoned.
unfoldable pub watched :
    Option ScoTeardownWatchdog → SystemStatus → ℕ → Option ScoTeardownWatchdog × SystemStatus
unfolding observe with_observation
watched none status now = (none, record status { audio = error })
watched (some watchdog) status now =
    let (watchdog', observation) = observe watchdog status.call status.audio now in
    (some watchdog', with_observation status observation)

unfoldable pub refresh_runtime_status :
    {E : Type 0}
    → Option ScoTeardownWatchdog
    → SystemStatus
    → Probe HfpStatusSnapshot WirePlumberBackendError
    → Probe AudioTransportState E
    → ℕ
    → Option ScoTeardownWatchdog × SystemStatus
unfolding with_hfp with_audio watched
refresh_runtime_status watchdog status hfp audio now =
    let (status', transport) = with_hfp status hfp in
    watched watchdog (with_audio status' transport audio) now

pub record SessionState : Type 0 where
  pub limiter : MutationLimiter
  pub watchdog : Option ScoTeardownWatchdog
  pub status : SystemStatus
  pub media_sessions : Registry

-- The call and its audio are up.
unfoldable pub is_live : SystemStatus → Bool
unfolding Call.discriminant AudioTransport.discriminant
is_live status = not (
    not (Call.discriminant status.call == Call.discriminant CallState.active)
    || not (AudioTransport.discriminant status.audio == AudioTransport.discriminant sco_active))

-- A session is issued for a minute, if the status admits it.
unfoldable pub issued :
    SessionState → Option (List ℕ) → ℕ → SessionState × Result Enrollment StatusCode
unfolding is_live
issued s random issued_at =
    if is_live s.status
    then (let (media_sessions, result) = issue s.media_sessions random (60 * second) issued_at in
        (record s { media_sessions = media_sessions }, or_err result service_unavailable))
    else (s, err conflict)

module _ {E : Type 0} (hfp : Probe HfpStatusSnapshot WirePlumberBackendError)
    (audio : Probe AudioTransportState E) where
  abbrev pub refreshed : SessionState → ℕ → SessionState
  refreshed s now =
      let (watchdog, status) = refresh_runtime_status s.watchdog s.status hfp audio now in
      record s { watchdog = watchdog; status = status }

  abbrev pub allowed :
      SessionState
      → Result (Unit {0}) StatusCode
      → ℕ
      → Option (List ℕ)
      → ℕ
      → SessionState × Result Enrollment StatusCode
  allowed s (err e) now random issued_at = (s, err e)
  allowed s (ok done) now random issued_at = issued (refreshed s now) random issued_at

  abbrev pub session_for :
      SessionState
      → Result (Unit {0}) StatusCode
      → ℕ
      → ℕ
      → Option (List ℕ)
      → ℕ
      → SessionState × Result Enrollment StatusCode
  session_for s (err e) requested_at now random issued_at = (s, err e)
  session_for s (ok done) requested_at now random issued_at =
      let (limiter, admission) = authorize_mutation s.limiter requested_at in
      allowed (record s { limiter = limiter }) admission now random issued_at

  unfoldable pub create_audio_session :
      SessionState
      → AuthTokens
      → Option Text
      → ℕ
      → ℕ
      → Option (List ℕ)
      → ℕ
      → SessionState × Result Enrollment StatusCode
  create_audio_session s tokens authorization requested_at now random issued_at =
      session_for s (authorize tokens authorization) requested_at now random issued_at
