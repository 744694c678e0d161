-- ===== src/Core/State/AndroidClient.antt =====
-- `AndroidClientState` of state.rs.
use analogconnect.Base.{String, ℕ, Bool, true, Result, ◌==◌}
use analogconnect.Core.State.Transition.{TransitionError, commit}

pub data AndroidClientState : Type 0 where
  disconnected connecting enrolled authenticated error : AndroidClientState

-- The derived equality compares the declaration order.
unfoldable pub discriminant : AndroidClientState → ℕ
discriminant disconnected = 0
discriminant connecting = 1
discriminant enrolled = 2
discriminant authenticated = 3
discriminant error = 4

unfoldable pub name : AndroidClientState → String
name disconnected = "disconnected"
name connecting = "connecting"
name enrolled = "enrolled"
name authenticated = "authenticated"
name error = "error"

unfoldable pub allowed : AndroidClientState → AndroidClientState → Bool
unfolding discriminant
allowed disconnected connecting = true
allowed connecting enrolled = true
allowed connecting authenticated = true
allowed connecting disconnected = true
allowed connecting error = true
allowed enrolled authenticated = true
allowed enrolled disconnected = true
allowed enrolled error = true
allowed authenticated disconnected = true
allowed authenticated error = true
allowed error disconnected = true
allowed error connecting = true
allowed state next = discriminant state == discriminant next

unfoldable pub transition_to :
    AndroidClientState → AndroidClientState → AndroidClientState × Result (Unit {0}) TransitionError
unfolding allowed
transition_to state next =
    commit (allowed state next) state next
      (record { machine = "android_client"; from = name state; to = name next })
