-- ===== src/Daemon/Hfp/AtBackend.antt =====
-- `AtCommandBackend`: call commands as HFP AT operations, and the microphone state it keeps.
-- The transport is not part of the repository: it is a state and a function that sends one command
-- and says whether it was taken. Locks are never poisoned, since the code that holds them does not panic.
pub mod Microphone
use analogconnect.Base.{
  ℕ, ◌+◌, ◌/◌, ◌%◌, Bool, true, false, List, [], ◌∷◌, ◌++◌, Result, ok, err, ◌>>=◌, ltb,
  if◌then◌else◌,
}
use analogconnect.Base.Text.{Text, chars}
use analogconnect.Core.Hfp.{
  Gain, CallCommand, answer, reject, hang_up, dial, send_dtmf, set_microphone_muted,
  set_speaker_gain, set_microphone_gain, HfpArgumentError, new_gain,
}

pub data AtBackendError : Type 0 where
  transport : AtBackendError

pub record MicrophoneState : Type 0 where
  pub gain : Gain
  pub muted : Bool

-- `AtCommandBackend::new`: full gain, not muted.
unfoldable pub new_microphone : Result MicrophoneState HfpArgumentError
unfolding new_gain
new_microphone = do gain ← new_gain 15; ok (record { gain = gain; muted = false })

-- The decimal text of a `u8`.
unfoldable pub show_u8 : ℕ → Text
show_u8 n =
    if ltb n 10
    then (48 + n) ∷ []
    else if ltb n 100
    then (48 + n / 10) ∷ (48 + n % 10) ∷ []
    else (48 + n / 100) ∷ (48 + n / 10 % 10) ∷ (48 + n % 10) ∷ []

abbrev pub microphone_gain_command : ℕ → Text
microphone_gain_command gain = chars "AT+VGM=" ++ show_u8 gain

module _ {T : Type 0} (send : T → Text → T × Bool) where
  abbrev pub Backend : Type 0
  Backend = T × MicrophoneState

  -- `self.send(command)?` where nothing else changes.
  unfoldable pub send_only : Backend → Text → Backend × Result (Unit {0}) AtBackendError
  send_only (t, microphone) command =
      let (t', taken) = send t command in
      ((t', microphone), (if taken then ok tt else err transport))

  unfoldable pub execute : Backend → CallCommand → Backend × Result (Unit {0}) AtBackendError
  unfolding send_only
  execute b answer = send_only b (chars "ATA")
  execute b reject = send_only b (chars "AT+CHUP")
  execute b hang_up = send_only b (chars "AT+CHUP")
  execute b (dial target) = send_only b (chars "ATD" ++ (target.as_str ++ chars ";"))
  execute b (send_dtmf tone) = send_only b (chars "AT+VTS=" ++ (tone.value ∷ []))
  execute b (set_speaker_gain gain) = send_only b (chars "AT+VGS=" ++ show_u8 gain.value)
  execute (t, microphone) (set_microphone_gain gain) =
      if microphone.muted
      then ((t, record microphone { gain = gain }), ok tt)
      else (let (t', taken) = send t (microphone_gain_command gain.value) in
          if taken
          then ((t', record microphone { gain = gain }), ok tt)
          else ((t', microphone), err transport))
  execute (t, microphone) (set_microphone_muted muted) =
      let gain = if muted then 0 else microphone.gain.value in
      let (t', taken) = send t (microphone_gain_command gain) in
      if taken
      then ((t', record microphone { muted = muted }), ok tt)
      else ((t', microphone), err transport)
