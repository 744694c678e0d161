-- ===== src/Daemon/Hfp/Aggregate.antt =====
-- `LiveCallState` and `aggregate_call_state`: one call state for all the calls of the gateway.
use analogconnect.Base.{
  ℕ, ◌≡◌, refl, Bool, true, false, List, [], ◌∷◌, Option, none, some, any, arith, ltb, ap, ◌∙◌,
  ◌==◌, if◌then◌else◌,
}
use analogconnect.Base.Text.{Text, chars, same, trim}
use analogconnect.Core.State.Call.{CallState}

pub data LiveCallState : Type 0 where
  incoming dialing alerting active held disconnected : LiveCallState

unfoldable pub discriminant : LiveCallState → ℕ
discriminant incoming = 0
discriminant dialing = 1
discriminant alerting = 2
discriminant active = 3
discriminant held = 4
discriminant disconnected = 5

-- `LiveCallState::parse`, on a reply of busctl.
unfoldable pub parse : Text → Option LiveCallState
unfolding same trim
parse output =
    let reply = trim output in
    if same reply (chars "s \"incoming\"")
    then some incoming
    else if same reply (chars "s \"dialing\"")
    then some dialing
    else if same reply (chars "s \"alerting\"")
    then some alerting
    else if same reply (chars "s \"active\"")
    then some active
    else if same reply (chars "s \"held\"")
    then some held
    else if same reply (chars "s \"disconnected\"")
    then some disconnected
    else none

-- `states.contains(&state)`.
unfoldable pub holds : LiveCallState → List LiveCallState → Bool
unfolding discriminant
holds state states = any (λ other. discriminant other == discriminant state) states

abbrev is_outgoing : LiveCallState → Bool
is_outgoing dialing = true
is_outgoing alerting = true
is_outgoing state = false

unfoldable pub aggregate_call_state : List LiveCallState → CallState
aggregate_call_state states =
    if holds active states
    then CallState.active
    else if holds incoming states
    then CallState.incoming
    else if any is_outgoing states
    then CallState.outgoing
    else if holds held states
    then CallState.held
    else if holds disconnected states
    then CallState.ended
    else CallState.idle

-- The state that clients are shown of one call, and how urgent a state is.
abbrev pub shown : LiveCallState → CallState
shown incoming = CallState.incoming
shown dialing = CallState.outgoing
shown alerting = CallState.outgoing
shown active = CallState.active
shown held = CallState.held
shown disconnected = CallState.ended

abbrev pub urgency : CallState → ℕ
urgency CallState.error = 0
urgency CallState.idle = 0
urgency CallState.ended = 1
urgency CallState.held = 2
urgency CallState.outgoing = 3
urgency CallState.incoming = 4
urgency CallState.active = 5

abbrev pub more_urgent : CallState → CallState → CallState
more_urgent a b = if ltb (urgency b) (urgency a) then a else b

abbrev pub most_urgent : List LiveCallState → CallState
most_urgent [] = CallState.idle
most_urgent (s ∷ states) = more_urgent (shown s) (most_urgent states)

aggregate_call_state-cons :
    (s : LiveCallState) (states : List LiveCallState)
    → aggregate_call_state (s ∷ states) ≡ more_urgent (shown s) (aggregate_call_state states)
unfolding aggregate_call_state holds discriminant
aggregate_call_state-cons incoming states = ground arith
aggregate_call_state-cons dialing states = ground arith
aggregate_call_state-cons alerting states = ground arith
aggregate_call_state-cons active states = ground arith
aggregate_call_state-cons held states = ground arith
aggregate_call_state-cons disconnected states = ground arith

-- The state that clients are shown is that of the most urgent call: an active one, else an incoming
-- one, else one that is dialed or alerts, else a held one, else one that is disconnected; without
-- calls it is idle.
pub aggregate_call_state-most_urgent :
    (states : List LiveCallState) → aggregate_call_state states ≡ most_urgent states
unfolding aggregate_call_state holds
aggregate_call_state-most_urgent [] = refl
aggregate_call_state-most_urgent (s ∷ states) =
    aggregate_call_state-cons s states
    ∙ ap (more_urgent (shown s)) (aggregate_call_state-most_urgent states)
