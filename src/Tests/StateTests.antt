-- ===== src/Tests/StateTests.antt =====
-- crates/analogconnect-core/src/state.rs.
use analogconnect.Base.{◌≡◌, refl, List, [], ◌∷◌, err}
use analogconnect.Core.State.Transition.{run}
use analogconnect.Core.State.Sync.{SyncState}
use analogconnect.Core.State.Bluetooth.{BluetoothConnectionState}
use analogconnect.Core.State.HfpControl
use analogconnect.Core.State.HfpControl.{HfpControlState}
use analogconnect.Core.State.Call
use analogconnect.Core.State.Call.{CallState}
use analogconnect.Core.State.AudioTransport.{AudioTransportState}
use analogconnect.Core.State.AndroidClient.{AndroidClientState}
use analogconnect.Core.State.Histories.{Resets, resets}

abbrev attempts : List HfpControlState
attempts =
    HfpControlState.acl_connected ∷ HfpControlState.services_resolved ∷ HfpControlState.slc_ready
    ∷ []

attempts-run :
    run HfpControl.transition_to HfpControlState.disconnected attempts
    ≡ HfpControlState.services_resolved
unfolding run HfpControl.transition_to
attempts-run = refl

abbrev answered : List CallState
answered = CallState.active ∷ CallState.incoming ∷ CallState.active ∷ []

answer_needs_ring :
    Call.transition_to CallState.idle CallState.active
    ≡ (CallState.idle, err (record { machine = "call"; from = "idle"; to = "active" }))
unfolding Call.transition_to Call.name
answer_needs_ring = refl

resets_example :
    Resets "message_sync" SyncState.error BluetoothConnectionState.connected
      HfpControlState.slc_negotiating CallState.held AudioTransportState.sco_active
      AndroidClientState.authenticated
resets_example =
    resets "message_sync" SyncState.error BluetoothConnectionState.connected
      HfpControlState.slc_negotiating CallState.held AudioTransportState.sco_active
      AndroidClientState.authenticated
