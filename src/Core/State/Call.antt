-- ===== src/Core/State/Call.antt =====
-- `CallState` of state.rs.
use analogconnect.Base.{String, ℕ, Bool, true, Result, ◌==◌}
use analogconnect.Core.State.Transition.{TransitionError, commit}

pub data CallState : Type 0 where
  idle incoming outgoing active held ended error : CallState

-- The derived equality compares the declaration order.
unfoldable pub discriminant : CallState → ℕ
discriminant idle = 0
discriminant incoming = 1
discriminant outgoing = 2
discriminant active = 3
discriminant held = 4
discriminant ended = 5
discriminant error = 6

unfoldable pub name : CallState → String
name idle = "idle"
name incoming = "incoming"
name outgoing = "outgoing"
name active = "active"
name held = "held"
name ended = "ended"
name error = "error"

unfoldable pub allowed : CallState → CallState → Bool
unfolding discriminant
allowed idle incoming = true
allowed idle outgoing = true
allowed idle error = true
allowed incoming active = true
allowed incoming ended = true
allowed incoming error = true
allowed outgoing active = true
allowed outgoing ended = true
allowed outgoing error = true
allowed active held = true
allowed active ended = true
allowed active error = true
allowed held active = true
allowed held ended = true
allowed held error = true
allowed ended idle = true
allowed error idle = true
allowed error ended = true
allowed state next = discriminant state == discriminant next

unfoldable pub transition_to : CallState → CallState → CallState × Result (Unit {0}) TransitionError
unfolding allowed
transition_to state next =
    commit (allowed state next) state next
      (record { machine = "call"; from = name state; to = name next })
