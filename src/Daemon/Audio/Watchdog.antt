-- ===== src/Daemon/Audio/Watchdog.antt =====
-- `ScoTeardownWatchdog`: audio that stays up after its call has ended.
-- Times are nanoseconds of a monotonic clock.
pub mod Onset
use analogconnect.Base.{
  ℕ, ◌-◌, Bool, true, false, ◌&&◌, ◌||◌, Option, none, some, leb, if◌then◌else◌, ◌==◌,
}
use analogconnect.Core.State.Call
use analogconnect.Core.State.Call.{CallState, idle, ended}
use analogconnect.Core.State.AudioTransport
use analogconnect.Core.State.AudioTransport.{
  AudioTransportState, sco_active, sco_tearing_down, error,
}

pub record ScoTeardownWatchdog : Type 0 where
  pub grace_period : ℕ
  pub inconsistent_since : Option ℕ

pub record ScoTeardownObservation : Type 0 where
  pub state : AudioTransportState
  pub stalled : Bool

unfoldable pub new : ℕ → ScoTeardownWatchdog
new grace_period = record { grace_period = grace_period; inconsistent_since = none }

-- The call is over and its audio is up.
unfoldable pub is_inconsistent : CallState → AudioTransportState → Bool
unfolding Call.discriminant AudioTransport.discriminant
is_inconsistent call audio =
    (Call.discriminant call == Call.discriminant idle
      || Call.discriminant call == Call.discriminant ended)
    && AudioTransport.discriminant audio == AudioTransport.discriminant sco_active

abbrev pub get_or_insert : Option ℕ → ℕ → ℕ
get_or_insert none now = now
get_or_insert (some since) now = since

-- An inconsistent observation; `saturating_duration_since` is subtraction that stops at 0.
abbrev watch : ScoTeardownWatchdog → ℕ → ℕ → ScoTeardownWatchdog × ScoTeardownObservation
watch w since now =
    let stalled = leb w.grace_period (now - since) in
    (
      record w { inconsistent_since = some since },
      record { state = if stalled then error else sco_tearing_down; stalled = stalled },
    )

unfoldable pub observe :
    ScoTeardownWatchdog
    → CallState
    → AudioTransportState
    → ℕ
    → ScoTeardownWatchdog × ScoTeardownObservation
observe w call audio now =
    if is_inconsistent call audio
    then watch w (get_or_insert w.inconsistent_since now) now
    else (record w { inconsistent_since = none }, record { state = audio; stalled = false })
