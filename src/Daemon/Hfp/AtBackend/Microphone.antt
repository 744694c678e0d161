-- ===== src/Daemon/Hfp/AtBackend/Microphone.antt =====
-- The microphone state of `AtCommandBackend` and the gain that the telephone has been told.
use analogconnect.Base.{ℕ, ◌≡◌, ◌⊎◌, Result, ok, err, Bool, true, false, if◌then◌else◌, take}
use analogconnect.Base.Text.{Text, chars, same}
use analogconnect.Daemon.Hfp.AtBackend.{
  AtBackendError, transport, MicrophoneState, microphone_gain_command,
}

-- Whether a command sets the microphone gain.
abbrev pub sets_microphone : Text → Bool
sets_microphone command = same (take 7 command) (chars "AT+VGM=")

-- A transport to a telephone whose microphone gain can be read off its state: a gain command that
-- is taken sets the gain, and other commands leave it alone.
pub record Telephone {T : Type 0} (send : T → Text → T × Bool) (level : T → ℕ) : Type 0 where
  pub taken_sets :
      (t : T) (g : ℕ)
      → (send t (microphone_gain_command g)).1 ≡ true
      → level (send t (microphone_gain_command g)).0 ≡ g
  pub others_keep :
      (t : T) (command : Text)
      → sets_microphone command ≡ false
      → level (send t command).0 ≡ level t

-- What the telephone's gain has to be.
abbrev pub wanted : MicrophoneState → ℕ
wanted m = if m.muted then 0 else m.gain.value

-- A command succeeds with the telephone's gain as wanted, or is refused with the state as it was.
abbrev pub InStep :
    {T : Type 0}
    → (T → ℕ)
    → MicrophoneState
    → (T × MicrophoneState) × Result (Unit {0}) AtBackendError
    → Type 0
InStep level m ((t', m'), result) =
    ((result ≡ ok tt) × (level t' ≡ wanted m')) ⊎ ((result ≡ err transport) × (m' ≡ m))
