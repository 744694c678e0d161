-- ===== src/Core/State/Bluetooth.antt =====
-- `BluetoothConnectionState`, by the macro `transition_method!` of state.rs.
use analogconnect.Base.{String, ℕ, Bool, true, Result, ◌==◌}
use analogconnect.Core.State.Transition.{TransitionError, commit}

pub data BluetoothConnectionState : Type 0 where
  disconnected connecting connected services_resolved error : BluetoothConnectionState

-- The derived equality compares the declaration order.
unfoldable pub discriminant : BluetoothConnectionState → ℕ
discriminant disconnected = 0
discriminant connecting = 1
discriminant connected = 2
discriminant services_resolved = 3
discriminant error = 4

unfoldable pub name : BluetoothConnectionState → String
name disconnected = "disconnected"
name connecting = "connecting"
name connected = "connected"
name services_resolved = "services_resolved"
name error = "error"

unfoldable pub allowed : BluetoothConnectionState → BluetoothConnectionState → Bool
unfolding discriminant
allowed disconnected connecting = true
allowed connecting connected = true
allowed connecting disconnected = true
allowed connecting error = true
allowed connected services_resolved = true
allowed connected disconnected = true
allowed connected error = true
allowed services_resolved disconnected = true
allowed services_resolved error = true
allowed error disconnected = true
allowed error connecting = true
allowed state next = discriminant state == discriminant next

unfoldable pub transition_to :
    BluetoothConnectionState
    → BluetoothConnectionState
    → BluetoothConnectionState × Result (Unit {0}) TransitionError
unfolding allowed
transition_to state next =
    commit (allowed state next) state next
      (record { machine = "bluetooth"; from = name state; to = name next })
