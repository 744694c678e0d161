-- ===== src/Daemon/Hfp/Controller.antt =====
-- `CallController` and `next_state`: call commands against the call state machine.
-- The backend is not fixed by the controller: it is a state and a function that executes one command
-- and says whether it succeeded.
pub mod Safety
use analogconnect.Base.{Bool, true, false, Option, none, some, Result, ok, err}
use analogconnect.Core.State.Call
use analogconnect.Core.State.Call.{CallState, idle, incoming, outgoing, active, held, ended}
use analogconnect.Core.Hfp.{
  CallCommand, answer, reject, hang_up, dial, send_dtmf, set_microphone_muted, set_speaker_gain,
  set_microphone_gain,
}

pub data CallControlError : Type 0 where
  invalid_state backend_failed : CallControlError

unfoldable pub next_state : CallState → CallCommand → Option (Option CallState)
next_state incoming answer = some (some active)
next_state incoming reject = some (some ended)
next_state incoming hang_up = some (some ended)
next_state outgoing hang_up = some (some ended)
next_state active hang_up = some (some ended)
next_state held hang_up = some (some ended)
next_state idle (dial target) = some (some outgoing)
next_state active (send_dtmf tone) = some none
next_state active (set_microphone_muted muted) = some none
next_state held (set_microphone_muted muted) = some none
next_state active (set_speaker_gain gain) = some none
next_state held (set_speaker_gain gain) = some none
next_state active (set_microphone_gain gain) = some none
next_state held (set_microphone_gain gain) = some none
next_state state command = none

module _ {B : Type 0} (backend : B → CallCommand → B × Bool) where
  -- `state.transition_to(next)` if there is one, and the state that is reported.
  unfoldable pub settle :
      B → CallState → Option CallState → (B × CallState) × Result CallState CallControlError
  settle b state none = ((b, state), ok state)
  settle b state (some next) =
      let (state', moved) = Call.transition_to state next in
      elim moved [ ok _ ↦ ((b, state'), ok state') | err _ ↦ ((b, state'), err invalid_state) ]

  unfoldable pub execute :
      B × CallState → CallCommand → (B × CallState) × Result CallState CallControlError
  unfolding settle
  execute (b, state) command = elim (next_state state command) [
    | none ↦ ((b, state), err invalid_state)
    | some next ↦
        let (b', succeeded) = backend b command in
        elim succeeded [ true ↦ settle b' state next | false ↦ ((b', state), err backend_failed) ]
  ]
