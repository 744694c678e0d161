-- ===== src/Core/Audio.antt =====
-- crates/analogconnect-core/src/audio.rs: frames of call audio, and the ACAP packets that carry them.
-- A sample is the 16-bit pattern of the source's `i16`: samples are moved, never computed with.
pub mod Packet
pub mod RoundTrip
pub mod Canonical
pub mod Sized
use analogconnect.Base.{
  ℕ, ◌*◌, ◌/◌, Bool, ◌||◌, ◌&&◌, not, List, Result, ok, err, length, ◌==◌, if◌then◌else◌,
}

pub record AudioFormat : Type 0 where
  pub sample_rate_hz : ℕ
  pub channels : ℕ
  pub samples_per_channel : ℕ

abbrev pub hfp_wideband : AudioFormat
hfp_wideband = record { sample_rate_hz = 16000; channels = 1; samples_per_channel = 120 }

abbrev pub hfp_narrowband : AudioFormat
hfp_narrowband = record { sample_rate_hz = 8000; channels = 1; samples_per_channel = 60 }

-- The derived equality of formats.
abbrev pub same_format : AudioFormat → AudioFormat → Bool
same_format a b =
    a.sample_rate_hz == b.sample_rate_hz
    && a.channels == b.channels
    && a.samples_per_channel == b.samples_per_channel

unfoldable pub frame_duration_micros : AudioFormat → ℕ
frame_duration_micros f = f.samples_per_channel * 1000000 / f.sample_rate_hz

pub record AudioFrame : Type 0 where
  pub sequence : ℕ
  pub format : AudioFormat
  pub samples : List ℕ

pub data AudioFrameError : Type 0 where
  invalid_format : AudioFrameError

unfoldable pub new_frame : ℕ → AudioFormat → List ℕ → Result AudioFrame AudioFrameError
new_frame sequence format samples =
    if format.sample_rate_hz == 0
      || format.channels == 0
      || not (length samples == format.samples_per_channel * format.channels)
    then err invalid_format
    else ok (record { sequence = sequence; format = format; samples = samples })
