-- ===== src/Tests/RuntimeTests.antt =====
-- `refresh_runtime_status` and `create_audio_session` of crates/analogconnectd/src/lib.rs.
use analogconnect.Base.{
  ◌≡◌, refl, true, false, Option, none, some, Result, ok, err, replicate, is_ok,
}
use analogconnect.Base.Text.{Text, chars, same}
use analogconnect.Core.State.HfpControl
use analogconnect.Core.State.Call.{CallState}
use analogconnect.Core.State.AudioTransport
use analogconnect.Core.State.AudioTransport.{AudioTransportState, sco_active}
use analogconnect.Core.State.Status.{SystemStatus, default_status}
use analogconnect.Daemon.Auth.{
  AuthTokens, new_limiter, only_current, allow_at, matches_tokens, matches_token,
}
use analogconnect.Daemon.Audio.Watchdog
use analogconnect.Daemon.Audio.Watchdog.{ScoTeardownWatchdog, observe, is_inconsistent}
use analogconnect.Daemon.MediaAuth.{Enrollment, empty_registry, issue, issue_grant}
use analogconnect.Daemon.Server.Guards.{StatusCode, authorize, authorize_mutation, strip_prefix}
use analogconnect.Daemon.Server.Runtime.{
  WirePlumberBackendError, unavailable, HfpStatusSnapshot, Probe, stalled_error,
  refresh_runtime_status, SessionState, is_live, issued, create_audio_session,
}
use analogconnect.Daemon.Server.Runtime.Live.{IsAudio, IsCall, refresh_runtime_status-IsUp}

abbrev tokens : AuthTokens
tokens = only_current (record { token_bytes = chars "secret" })

abbrev bearer : Option Text
bearer = some (chars "Bearer secret")

abbrev in_call : Probe HfpStatusSnapshot WirePlumberBackendError
in_call = some (
    ok (
      ok (record {
        control = HfpControl.HfpControlState.slc_ready;
        call = CallState.active;
        transport = sco_active;
      })))

abbrev gone : Probe HfpStatusSnapshot WirePlumberBackendError
gone = some (ok (err unavailable))

abbrev nodes_up : Result (Result AudioTransportState (Unit {0})) (Unit {0})
nodes_up = ok (ok sco_active)

abbrev watchdog : Option ScoTeardownWatchdog
watchdog = some (Watchdog.new 1000)

abbrev start : SessionState
start = record {
  limiter = new_limiter 5 1000 0;
  watchdog = watchdog;
  status = default_status;
  media_sessions = empty_registry;
}

-- The nodes are still up when the telephone's service is gone, and again later.
gone_is_inactive :
    (refresh_runtime_status watchdog default_status gone (some nodes_up) 5).1.audio
    ≡ AudioTransport.inactive
unfolding refresh_runtime_status is_inconsistent Watchdog.new
gone_is_inactive = refl

-- Without the telephone's backend, its call is idle, and active nodes are a teardown that stalls.
stalls :
    (refresh_runtime_status
      (refresh_runtime_status watchdog default_status none (some nodes_up) 5).0
      default_status
      none
      (some nodes_up)
      1005).1.last_error
    ≡ some stalled_error
unfolding refresh_runtime_status is_inconsistent Watchdog.new
stalls = refl

up : (refresh_runtime_status watchdog default_status in_call (some nodes_up) 5).1.audio ≡ sco_active
unfolding refresh_runtime_status is_inconsistent Watchdog.new
up = refl

refresh_runtime_status-IsUp_example :
    IsAudio in_call (some nodes_up) AudioTransport.inactive
    × (is_inconsistent
          (refresh_runtime_status watchdog default_status in_call (some nodes_up) 5).1.call
          sco_active
        ≡ false)
    × IsCall in_call CallState.idle
        (refresh_runtime_status watchdog default_status in_call (some nodes_up) 5).1.call
refresh_runtime_status-IsUp_example =
    refresh_runtime_status-IsUp watchdog default_status in_call (some nodes_up) 5 up

-- Without backends, what was reported stays.
abbrev live_before : SystemStatus
live_before = record default_status { call = CallState.active; audio = sco_active }

abbrev no_nodes : Probe AudioTransportState (Unit {0})
no_nodes = none

stays : (refresh_runtime_status watchdog live_before none no_nodes 5).1 ≡ live_before
unfolding refresh_runtime_status is_inconsistent Watchdog.new
stays = refl

created :
    is_ok
      (create_audio_session in_call
        (some nodes_up)
        start
        tokens
        bearer
        1
        2
        (some (replicate 48 7))
        3).1
    ≡ true
unfolding create_audio_session authorize authorize_mutation issued issue issue_grant is_inconsistent
    Watchdog.new allow_at matches_tokens matches_token same strip_prefix new_limiter is_live
    refresh_runtime_status
created = refl

abbrev answered : SessionState × Result Enrollment StatusCode
answered =
    create_audio_session in_call (some nodes_up) start tokens bearer 1 2 (some (replicate 48 7)) 3
