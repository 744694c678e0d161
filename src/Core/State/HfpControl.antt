-- ===== src/Core/State/HfpControl.antt =====
-- `HfpControlState` of state.rs.
use analogconnect.Base.{String, ℕ, Bool, true, Result, ◌==◌}
use analogconnect.Core.State.Transition.{TransitionError, commit}

pub data HfpControlState : Type 0 where
  disconnected acl_connected services_resolved profile_registered rfcomm_connecting rfcomm_connected
        slc_negotiating slc_ready error :
      HfpControlState

-- The derived equality compares the declaration order.
unfoldable pub discriminant : HfpControlState → ℕ
discriminant disconnected = 0
discriminant acl_connected = 1
discriminant services_resolved = 2
discriminant profile_registered = 3
discriminant rfcomm_connecting = 4
discriminant rfcomm_connected = 5
discriminant slc_negotiating = 6
discriminant slc_ready = 7
discriminant error = 8

unfoldable pub name : HfpControlState → String
name disconnected = "disconnected"
name acl_connected = "acl_connected"
name services_resolved = "services_resolved"
name profile_registered = "profile_registered"
name rfcomm_connecting = "rfcomm_connecting"
name rfcomm_connected = "rfcomm_connected"
name slc_negotiating = "slc_negotiating"
name slc_ready = "slc_ready"
name error = "error"

unfoldable pub allowed : HfpControlState → HfpControlState → Bool
unfolding discriminant
allowed disconnected acl_connected = true
allowed acl_connected services_resolved = true
allowed acl_connected disconnected = true
allowed acl_connected error = true
allowed services_resolved profile_registered = true
allowed services_resolved disconnected = true
allowed services_resolved error = true
allowed profile_registered rfcomm_connecting = true
allowed profile_registered disconnected = true
allowed profile_registered error = true
allowed rfcomm_connecting rfcomm_connected = true
allowed rfcomm_connecting disconnected = true
allowed rfcomm_connecting error = true
allowed rfcomm_connected slc_negotiating = true
allowed rfcomm_connected disconnected = true
allowed rfcomm_connected error = true
allowed slc_negotiating slc_ready = true
allowed slc_negotiating disconnected = true
allowed slc_negotiating error = true
allowed slc_ready disconnected = true
allowed slc_ready error = true
allowed error disconnected = true
allowed error acl_connected = true
allowed state next = discriminant state == discriminant next

unfoldable pub transition_to :
    HfpControlState → HfpControlState → HfpControlState × Result (Unit {0}) TransitionError
unfolding allowed
transition_to state next =
    commit (allowed state next) state next
      (record { machine = "hfp_control"; from = name state; to = name next })
