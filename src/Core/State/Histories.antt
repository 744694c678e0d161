-- ===== src/Core/State/Histories.antt =====
-- Histories of requests to the machines of state.rs.
use analogconnect.Base.{
  String, ℕ, ◌+◌, ◌≤◌, ◌≡◌, ◌⊎◌, List, [], ◌∷◌, Bool, true, false, any, length, arith, ok,
}
use analogconnect.Core.State.Transition.{run, visited, run_all}
use analogconnect.Core.State.Sync
use analogconnect.Core.State.Sync.{SyncState}
use analogconnect.Core.State.Bluetooth
use analogconnect.Core.State.Bluetooth.{BluetoothConnectionState}
use analogconnect.Core.State.Call
use analogconnect.Core.State.Call.{CallState}
use analogconnect.Core.State.HfpControl
use analogconnect.Core.State.HfpControl.{HfpControlState}
use analogconnect.Core.State.AudioTransport
use analogconnect.Core.State.AudioTransport.{AudioTransportState}
use analogconnect.Core.State.AndroidClient
use analogconnect.Core.State.AndroidClient.{AndroidClientState}

-- How far the service-level connection has come.
abbrev pub progress : HfpControlState → ℕ
progress HfpControlState.disconnected = 0
progress HfpControlState.acl_connected = 1
progress HfpControlState.services_resolved = 2
progress HfpControlState.profile_registered = 3
progress HfpControlState.rfcomm_connecting = 4
progress HfpControlState.rfcomm_connected = 5
progress HfpControlState.slc_negotiating = 6
progress HfpControlState.slc_ready = 7
progress HfpControlState.error = 0

step-progress : (s n : HfpControlState) → progress (HfpControl.transition_to s n).0 ≤ progress s + 1
unfolding HfpControl.transition_to
step-progress s n = ground arith

-- A history advances the HFP control state by at most one stage for each request, whatever is
-- requested: in `k` requests nobody gets from a state to one more than `k` stages further on.
pub run-progress :
    (s : HfpControlState) (ns : List HfpControlState)
    → progress (run HfpControl.transition_to s ns) ≤ progress s + length ns
unfolding run
run-progress s [] = omega arith
run-progress s (n ∷ ns) =
    omega (arith, step-progress s n, run-progress (HfpControl.transition_to s n).0 ns)

-- A call that is being set up.
abbrev pub is_setup : CallState → Bool
is_setup CallState.incoming = true
is_setup CallState.outgoing = true
is_setup s = false

-- A call that can carry audio.
abbrev pub is_live : CallState → Bool
is_live CallState.active = true
is_live CallState.held = true
is_live s = false

abbrev pub is_down : CallState → Bool
is_down CallState.idle = true
is_down CallState.ended = true
is_down CallState.error = true
is_down s = false

step_down :
    (s n : CallState)
    → is_down s ≡ true
    → (is_down (Call.transition_to s n).0 ≡ true) ⊎ (is_setup (Call.transition_to s n).0 ≡ true)
unfolding Call.transition_to
step_down s n h = ground arith

down_not_live : (s : CallState) → is_down s ≡ true → is_live s ≡ false
down_not_live s h = ground arith

-- A call that is down (idle, ended or in error) can be active or held after a history of requests
-- only if it was incoming or outgoing on the way.
pub live_after_setup :
    (s : CallState) (ns : List CallState)
    → is_down s ≡ true
    → is_live (run Call.transition_to s ns) ≡ true
    → any is_setup (visited Call.transition_to s ns) ≡ true
unfolding run visited
live_after_setup s [] h live = ground arith
live_after_setup s (n ∷ ns) h live =
    ground (arith, step_down s n h, live_after_setup (Call.transition_to s n).0 ns)

-- A list of requests that leads from each state back to the state that a fresh status has.
abbrev sync_back : SyncState → List SyncState
sync_back s = SyncState.idle ∷ []

abbrev bluetooth_back : BluetoothConnectionState → List BluetoothConnectionState
bluetooth_back s = BluetoothConnectionState.disconnected ∷ []

abbrev hfp_back : HfpControlState → List HfpControlState
hfp_back s = HfpControlState.disconnected ∷ []

abbrev call_back : CallState → List CallState
call_back CallState.idle = []
call_back CallState.error = CallState.idle ∷ []
call_back s = CallState.ended ∷ CallState.idle ∷ []

abbrev audio_back : AudioTransportState → List AudioTransportState
audio_back AudioTransportState.sco_connecting =
    AudioTransportState.sco_tearing_down ∷ AudioTransportState.inactive ∷ []
audio_back AudioTransportState.sco_active =
    AudioTransportState.sco_tearing_down ∷ AudioTransportState.inactive ∷ []
audio_back s = AudioTransportState.inactive ∷ []

abbrev client_back : AndroidClientState → List AndroidClientState
client_back s = AndroidClientState.disconnected ∷ []

sync_lem :
    (machine : String) (s : SyncState)
    → run_all (Sync.transition_to machine) s (sync_back s) ≡ ok SyncState.idle
unfolding run_all Sync.transition_to
sync_lem machine s = ground arith

bluetooth_lem :
    (s : BluetoothConnectionState)
    → run_all Bluetooth.transition_to s (bluetooth_back s)
      ≡ ok BluetoothConnectionState.disconnected
unfolding run_all Bluetooth.transition_to
bluetooth_lem s = ground arith

hfp_lem :
    (s : HfpControlState)
    → run_all HfpControl.transition_to s (hfp_back s) ≡ ok HfpControlState.disconnected
unfolding run_all HfpControl.transition_to
hfp_lem s = ground arith

call_lem : (s : CallState) → run_all Call.transition_to s (call_back s) ≡ ok CallState.idle
unfolding run_all Call.transition_to
call_lem s = ground arith

audio_lem :
    (s : AudioTransportState)
    → run_all AudioTransport.transition_to s (audio_back s) ≡ ok AudioTransportState.inactive
unfolding run_all AudioTransport.transition_to
audio_lem s = ground arith

client_lem :
    (s : AndroidClientState)
    → run_all AndroidClient.transition_to s (client_back s) ≡ ok AndroidClientState.disconnected
unfolding run_all AndroidClient.transition_to
client_lem s = ground arith

pub record Resets (machine : String) (sync : SyncState) (bluetooth : BluetoothConnectionState)
    (hfp : HfpControlState) (call : CallState) (audio : AudioTransportState)
    (client : AndroidClientState) : Type 0 where
  sync_resets : run_all (Sync.transition_to machine) sync (sync_back sync) ≡ ok SyncState.idle
  bluetooth_resets :
      run_all Bluetooth.transition_to bluetooth (bluetooth_back bluetooth)
      ≡ ok BluetoothConnectionState.disconnected
  hfp_resets : run_all HfpControl.transition_to hfp (hfp_back hfp) ≡ ok HfpControlState.disconnected
  call_resets : run_all Call.transition_to call (call_back call) ≡ ok CallState.idle
  audio_resets :
      run_all AudioTransport.transition_to audio (audio_back audio)
      ≡ ok AudioTransportState.inactive
  client_resets :
      run_all AndroidClient.transition_to client (client_back client)
      ≡ ok AndroidClientState.disconnected

-- No state of any of the machines is a trap: from each one a list of at most two requests, none of
-- which is refused, leads back to the state of a fresh status.
pub resets :
    (machine : String) (sync : SyncState) (bluetooth : BluetoothConnectionState)
    (hfp : HfpControlState) (call : CallState) (audio : AudioTransportState)
    (client : AndroidClientState)
    → Resets machine sync bluetooth hfp call audio client
resets machine sync bluetooth hfp call audio client = record {
  sync_resets = sync_lem machine sync;
  bluetooth_resets = bluetooth_lem bluetooth;
  hfp_resets = hfp_lem hfp;
  call_resets = call_lem call;
  audio_resets = audio_lem audio;
  client_resets = client_lem client;
}
