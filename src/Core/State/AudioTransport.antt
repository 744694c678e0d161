-- ===== src/Core/State/AudioTransport.antt =====
-- `AudioTransportState` of state.rs.
use analogconnect.Base.{String, ℕ, Bool, true, Result, ◌==◌}
use analogconnect.Core.State.Transition.{TransitionError, commit}

pub data AudioTransportState : Type 0 where
  inactive codec_negotiating sco_connecting sco_active sco_tearing_down error : AudioTransportState

-- The derived equality compares the declaration order.
unfoldable pub discriminant : AudioTransportState → ℕ
discriminant inactive = 0
discriminant codec_negotiating = 1
discriminant sco_connecting = 2
discriminant sco_active = 3
discriminant sco_tearing_down = 4
discriminant error = 5

unfoldable pub name : AudioTransportState → String
name inactive = "inactive"
name codec_negotiating = "codec_negotiating"
name sco_connecting = "sco_connecting"
name sco_active = "sco_active"
name sco_tearing_down = "sco_tearing_down"
name error = "error"

unfoldable pub allowed : AudioTransportState → AudioTransportState → Bool
unfolding discriminant
allowed inactive codec_negotiating = true
allowed inactive error = true
allowed codec_negotiating sco_connecting = true
allowed codec_negotiating inactive = true
allowed codec_negotiating error = true
allowed sco_connecting sco_active = true
allowed sco_connecting sco_tearing_down = true
allowed sco_connecting error = true
allowed sco_active sco_tearing_down = true
allowed sco_active error = true
allowed sco_tearing_down inactive = true
allowed sco_tearing_down error = true
allowed error inactive = true
allowed state next = discriminant state == discriminant next

unfoldable pub transition_to :
    AudioTransportState
    → AudioTransportState
    → AudioTransportState × Result (Unit {0}) TransitionError
unfolding allowed
transition_to state next =
    commit (allowed state next) state next
      (record { machine = "audio_transport"; from = name state; to = name next })
