-- ===== src/Tests/HfpTests.antt =====
-- crates/analogconnectd/src/hfp.rs.
use analogconnect.Base.{
  ℕ, ◌+◌, ◌-◌, ◌*◌, drop, ◌≡◌, ◌==◌, refl, Bool, true, false, List, [], ◌∷◌, ok, if◌then◌else◌,
}
use analogconnect.Base.Text.{Text}
use analogconnect.Core.State.Call
use analogconnect.Core.State.Call.{CallState}
use analogconnect.Core.Hfp.{CallCommand, answer}
use analogconnect.Daemon.Hfp.Aggregate.{
  LiveCallState, held, dialing, aggregate_call_state, most_urgent, aggregate_call_state-most_urgent,
}
use analogconnect.Daemon.Hfp.AtBackend
use analogconnect.Daemon.Hfp.AtBackend.{MicrophoneState}
use analogconnect.Daemon.Hfp.AtBackend.Microphone.{sets_microphone}
use analogconnect.Daemon.Hfp.Controller
use analogconnect.Daemon.Hfp.Controller.{next_state}
use analogconnect.Daemon.Hfp.Controller.Safety.{Outcome, execute-Outcome}

-- A backend that counts the commands it is asked for and refuses after two.
abbrev counting : ℕ → CallCommand → ℕ × Bool
counting n command = (n, true)

answer_example :
    Controller.execute counting (3, CallState.incoming) answer
    ≡ ((3, CallState.active), ok CallState.active)
unfolding Controller.execute Controller.settle next_state Call.transition_to
answer_example = refl

execute-Outcome_example :
    Outcome counting 3 CallState.incoming answer
      (Controller.execute counting (3, CallState.incoming) answer)
execute-Outcome_example = execute-Outcome counting 3 CallState.incoming answer

-- A telephone that is nothing but its microphone gain, and that loses it when it refuses 9.
abbrev read_gain : Text → ℕ
read_gain (a ∷ []) = a - 48
read_gain (a ∷ b ∷ []) = (a - 48) * 10 + (b - 48)
read_gain (a ∷ b ∷ c ∷ []) = (a - 48) * 100 + (b - 48) * 10 + (c - 48)
read_gain text = 0

abbrev gain_phone : ℕ → Text → ℕ × Bool
gain_phone g command =
    if sets_microphone command
    then (let gain = read_gain (drop 7 command) in if gain == 9 then (3, false) else (gain, true))
    else (g, true)

muted_at_twelve : MicrophoneState
muted_at_twelve = record { gain = record { value = 12 }; muted = true }

abbrev three_calls : List LiveCallState
three_calls = dialing ∷ held ∷ dialing ∷ []

aggregate_call_state-most_urgent_example :
    aggregate_call_state three_calls ≡ most_urgent three_calls
aggregate_call_state-most_urgent_example = aggregate_call_state-most_urgent three_calls
