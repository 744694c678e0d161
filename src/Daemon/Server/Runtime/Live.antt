-- ===== src/Daemon/Server/Runtime/Live.antt =====
-- When a refresh reports live audio.
use analogconnect.Base.{
  ℕ, ◌≡◌, ◌⊎◌, refl, sym, ap, ap₂, ◌∙◌, inl, inr, true, false, Option, none, some, ok, err, arith,
  ◌==◌, subst,
}
use analogconnect.Base.Options.{some_injective}
use analogconnect.Core.State.Call
use analogconnect.Core.State.Call.{CallState}
use analogconnect.Core.State.AudioTransport
use analogconnect.Core.State.AudioTransport.{AudioTransportState, inactive, sco_active, error}
use analogconnect.Core.State.Status.{SystemStatus}
use analogconnect.Daemon.Audio.Watchdog.{ScoTeardownWatchdog, observe, is_inconsistent}
use analogconnect.Daemon.Server.Runtime.{
  WirePlumberBackendError, unavailable, HfpStatusSnapshot, Probe, with_hfp, merged_audio,
  with_audio, watched, with_observation, refresh_runtime_status, is_live,
}

is_active :
    (call : CallState)
    → (Call.discriminant call == Call.discriminant CallState.active) ≡ true
    → call ≡ CallState.active
unfolding Call.discriminant
is_active CallState.active h = refl
is_active call h = absurd (cc h)

is_sco_active :
    (audio : AudioTransportState)
    → (AudioTransport.discriminant audio == AudioTransport.discriminant sco_active) ≡ true
    → audio ≡ sco_active
unfolding AudioTransport.discriminant
is_sco_active sco_active h = refl
is_sco_active audio h = absurd (cc h)

pub audio-is_live :
    (status : SystemStatus)
    → is_live status ≡ true
    → (status.call ≡ CallState.active) × (status.audio ≡ sco_active)
unfolding is_live
audio-is_live status h =
    (is_active status.call (ground arith), is_sco_active status.audio (ground arith))

audio-watched :
    (watchdog : Option ScoTeardownWatchdog) (status : SystemStatus) (now : ℕ)
    → (watched watchdog status now).1.audio ≡ sco_active
    → (status.audio ≡ sco_active) × (is_inconsistent status.call status.audio ≡ false)
unfolding watched with_observation observe
audio-watched none status now h = absurd (cc h)
audio-watched (some w) status now h = (ground arith, ground arith)

merged_audio-sco_active :
    (nodes : AudioTransportState) (transport : Option AudioTransportState)
    → merged_audio nodes transport ≡ sco_active
    → (nodes ≡ sco_active) × ((transport ≡ none) ⊎ (transport ≡ some sco_active))
unfolding merged_audio
merged_audio-sco_active sco_active none h = (refl, inl refl)
merged_audio-sco_active sco_active (some sco_active) h = (refl, inr refl)
merged_audio-sco_active nodes transport h = ground arith

-- The call is the one that the backend of the telephone reports, none if its service is gone, an
-- error if it fails, or, if no backend is configured, the one before.
abbrev pub IsCall : Probe HfpStatusSnapshot WirePlumberBackendError → CallState → CallState → Type 0
IsCall none before call = before ≡ call
IsCall (some (ok (ok snapshot))) before call = snapshot.call ≡ call
IsCall (some (ok (err unavailable))) before call = CallState.idle ≡ call
IsCall (some (ok (err e))) before call = CallState.error ≡ call
IsCall (some (err lost)) before call = CallState.error ≡ call

-- The telephone reports that its audio is up, if a backend of it is configured.
abbrev pub HasAudio : Probe HfpStatusSnapshot WirePlumberBackendError → Type 0
HasAudio none = Unit {0}
HasAudio (some (ok (ok snapshot))) = snapshot.transport ≡ sco_active
HasAudio (some (ok (err e))) = ⊥
HasAudio (some (err lost)) = ⊥

-- The audio is up: its nodes are active and the telephone agrees, or, if no backend of the nodes is
-- configured, the audio was up before.
abbrev pub IsAudio :
    {E : Type 0}
    → Probe HfpStatusSnapshot WirePlumberBackendError
    → Probe AudioTransportState E
    → AudioTransportState
    → Type 0
IsAudio hfp none before = before ≡ sco_active
IsAudio hfp (some nodes) before = (nodes ≡ ok (ok sco_active)) × HasAudio hfp

call-watched :
    (watchdog : Option ScoTeardownWatchdog) (status : SystemStatus) (now : ℕ)
    → (watched watchdog status now).1.call ≡ status.call
unfolding watched with_observation
call-watched none status now = refl
call-watched (some w) status now = refl

call-with_audio :
    {E : Type 0} (status : SystemStatus) (transport : Option AudioTransportState)
    (audio : Probe AudioTransportState E)
    → (with_audio status transport audio).call ≡ status.call
unfolding with_audio
call-with_audio status transport none = refl
call-with_audio status transport (some (ok (ok nodes))) = refl
call-with_audio status transport (some (ok (err e))) = refl
call-with_audio status transport (some (err lost)) = refl

with_hfp-HasAudio :
    (status : SystemStatus) (hfp : Probe HfpStatusSnapshot WirePlumberBackendError)
    → ((with_hfp status hfp).1 ≡ none) ⊎ ((with_hfp status hfp).1 ≡ some sco_active)
    → HasAudio hfp
unfolding with_hfp
with_hfp-HasAudio status none up = tt
with_hfp-HasAudio status (some (ok (ok snapshot))) (inl e) = absurd (cc e)
with_hfp-HasAudio status (some (ok (ok snapshot))) (inr e) = some_injective e
with_hfp-HasAudio status (some (ok (err e))) (inl x) = ground arith
with_hfp-HasAudio status (some (ok (err e))) (inr x) = ground arith
with_hfp-HasAudio status (some (err lost)) (inl e) = absurd (cc e)
with_hfp-HasAudio status (some (err lost)) (inr e) = absurd (cc e)

with_hfp-IsCall :
    (status : SystemStatus) (hfp : Probe HfpStatusSnapshot WirePlumberBackendError)
    → IsCall hfp status.call (with_hfp status hfp).0.call
unfolding with_hfp
with_hfp-IsCall status none = refl
with_hfp-IsCall status (some (ok (ok snapshot))) = refl
with_hfp-IsCall status (some (ok (err unavailable))) = refl
with_hfp-IsCall status (some (ok (err e))) = refl
with_hfp-IsCall status (some (err lost)) = refl

audio-with_hfp :
    (status : SystemStatus) (hfp : Probe HfpStatusSnapshot WirePlumberBackendError)
    → (with_hfp status hfp).0.audio ≡ status.audio
unfolding with_hfp
audio-with_hfp status none = refl
audio-with_hfp status (some (ok (ok snapshot))) = refl
audio-with_hfp status (some (ok (err unavailable))) = refl
audio-with_hfp status (some (ok (err e))) = refl
audio-with_hfp status (some (err lost)) = refl

with_audio-IsAudio :
    {E : Type 0} (status : SystemStatus) (hfp : Probe HfpStatusSnapshot WirePlumberBackendError)
    (audio : Probe AudioTransportState E)
    → (with_audio (with_hfp status hfp).0 (with_hfp status hfp).1 audio).audio ≡ sco_active
    → IsAudio hfp audio status.audio
unfolding with_audio
with_audio-IsAudio status hfp none h = sym (audio-with_hfp status hfp) ∙ h
with_audio-IsAudio status hfp (some (ok (ok nodes))) h =
    let (up, agreed) = merged_audio-sco_active nodes (with_hfp status hfp).1 h in
    (ap (λ n. ok (ok n)) up, with_hfp-HasAudio status hfp agreed)
with_audio-IsAudio status hfp (some (ok (err e))) h = absurd (cc h)
with_audio-IsAudio status hfp (some (err lost)) h = absurd (cc h)

refresh_runtime_status-IsCall :
    {E : Type 0} (watchdog : Option ScoTeardownWatchdog) (status : SystemStatus)
    (hfp : Probe HfpStatusSnapshot WirePlumberBackendError) (audio : Probe AudioTransportState E)
    (now : ℕ)
    → IsCall hfp status.call (refresh_runtime_status watchdog status hfp audio now).1.call
unfolding refresh_runtime_status
refresh_runtime_status-IsCall watchdog status hfp audio now =
    let (found, transport) = with_hfp status hfp in
    subst (IsCall hfp status.call)
      (sym (
        call-watched watchdog (with_audio found transport audio) now
        ∙ call-with_audio found transport audio))
      (with_hfp-IsCall status hfp)

-- A refresh reports active call audio only if the call that it reports is not over and the audio is
-- up: with a backend of the audio nodes, these are active and the telephone, if a backend of it is
-- configured, reports its audio active; without one, active audio was reported before. The call
-- that it reports is the telephone's, idle if its service is gone, an error if its backend fails,
-- or the one before, if no backend of it is configured.
pub refresh_runtime_status-IsUp :
    {E : Type 0} (watchdog : Option ScoTeardownWatchdog) (status : SystemStatus)
    (hfp : Probe HfpStatusSnapshot WirePlumberBackendError) (audio : Probe AudioTransportState E)
    (now : ℕ)
    → (refresh_runtime_status watchdog status hfp audio now).1.audio ≡ sco_active
    → IsAudio hfp audio status.audio
      × (is_inconsistent (refresh_runtime_status watchdog status hfp audio now).1.call sco_active
          ≡ false)
      × IsCall hfp status.call (refresh_runtime_status watchdog status hfp audio now).1.call
unfolding refresh_runtime_status
refresh_runtime_status-IsUp watchdog status hfp audio now h =
    let (found, transport) = with_hfp status hfp in
    let merged = with_audio found transport audio in
    let (live, consistent) = audio-watched watchdog merged now h in
    (
      with_audio-IsAudio status hfp audio live,
      ap₂ is_inconsistent (call-watched watchdog merged now) (sym live) ∙ consistent,
      refresh_runtime_status-IsCall watchdog status hfp audio now,
    )
