-- ===== src/Core/State/Status.antt =====
-- `SystemStatus` and `RedactedError` of state.rs: the status that clients read.
use analogconnect.Base.{ℕ, Option, none}
use analogconnect.Base.Text.{Text}
use analogconnect.Core.State.Sync.{SyncState}
use analogconnect.Core.State.Bluetooth.{BluetoothConnectionState}
use analogconnect.Core.State.HfpControl.{HfpControlState}
use analogconnect.Core.State.Call.{CallState}
use analogconnect.Core.State.AudioTransport.{AudioTransportState}
use analogconnect.Core.State.AndroidClient.{AndroidClientState}

pub record RedactedError : Type 0 where
  pub code : Text
  pub summary : Text

pub record SystemStatus : Type 0 where
  pub protocol_version : ℕ
  pub bluetooth : BluetoothConnectionState
  pub messages : SyncState
  pub contacts : SyncState
  pub hfp_control : HfpControlState
  pub call : CallState
  pub audio : AudioTransportState
  pub android_client : AndroidClientState
  pub last_error : Option RedactedError

abbrev pub default_status : SystemStatus
default_status = record {
  protocol_version = 1;
  bluetooth = BluetoothConnectionState.disconnected;
  messages = SyncState.idle;
  contacts = SyncState.idle;
  hfp_control = HfpControlState.disconnected;
  call = CallState.idle;
  audio = AudioTransportState.inactive;
  android_client = AndroidClientState.disconnected;
  last_error = none;
}
