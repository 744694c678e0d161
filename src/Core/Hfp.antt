-- ===== src/Core/Hfp.antt =====
-- crates/analogconnect-core/src/hfp.rs: the validated arguments of call commands, and the commands.
use analogconnect.Base.{
  ℕ, Bool, ◌||◌, ◌&&◌, not, Result, ok, err, all, ltb, leb, ◌==◌, if◌then◌else◌,
}
use analogconnect.Base.Text.{Text, len, trim, is_ascii_digit, to_ascii_uppercase}

pub data HfpArgumentError : Type 0 where
  invalid_dial_target invalid_dtmf_tone invalid_gain : HfpArgumentError

pub record DialTarget : Type 0 where
  pub as_str : Text

abbrev pub is_dial_char : ℕ → Bool
is_dial_char c = is_ascii_digit c || c == b'+' || c == b'*' || c == b'#'

unfoldable pub parse_dial_target : Text → Result DialTarget HfpArgumentError
unfolding len trim
parse_dial_target input =
    let target = trim input in
    if len target == 0 || ltb 32 (len target) || not (all is_dial_char target)
    then err invalid_dial_target
    else ok (record { as_str = target })

pub record DtmfTone : Type 0 where
  pub value : ℕ

unfoldable pub parse_dtmf_tone : ℕ → Result DtmfTone HfpArgumentError
unfolding to_ascii_uppercase
parse_dtmf_tone input =
    let tone = to_ascii_uppercase input in
    if is_ascii_digit tone || tone == b'*' || tone == b'#' || (leb b'A' tone && leb tone b'D')
    then ok (record { value = tone })
    else err invalid_dtmf_tone

pub record Gain : Type 0 where
  pub value : ℕ

unfoldable pub new_gain : ℕ → Result Gain HfpArgumentError
new_gain value = if leb value 15 then ok (record { value = value }) else err invalid_gain

pub data CallCommand : Type 0 where
  answer reject hang_up : CallCommand
  dial : DialTarget → CallCommand
  send_dtmf : DtmfTone → CallCommand
  set_microphone_muted : Bool → CallCommand
  set_speaker_gain : Gain → CallCommand
  set_microphone_gain : Gain → CallCommand
