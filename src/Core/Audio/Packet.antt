-- ===== src/Core/Audio/Packet.antt =====
-- `AudioPacket::encode` and `AudioPacket::decode`.
use analogconnect.Base.{
  ℕ, Bool, ◌||◌, not, List, [], ◌∷◌, ◌++◌, Result, ok, err, ◌>>=◌, ◌>>◌, ensure, or_err, length,
  take, drop, get_or, ltb, leb, ◌==◌, if◌then◌else◌, ◌*◌,
}
use analogconnect.Base.Text.{same}
use analogconnect.Base.Words.{i64_max, to_le_bytes, from_le_bytes, to_be_bytes, from_be_bytes}
use analogconnect.Core.Audio.{
  AudioFormat, AudioFrame, hfp_narrowband, hfp_wideband, same_format, new_frame,
}

pub data AudioPacketError : Type 0 where
  invalid_header unsupported_format invalid_payload sequence_out_of_range : AudioPacketError

pub record AudioPacket : Type 0 where
  pub capture_time_micros : ℕ
  pub frame : AudioFrame

abbrev pub packet_magic : List ℕ
packet_magic = b'A' ∷ b'C' ∷ b'A' ∷ b'P' ∷ []

abbrev pub packet_version : ℕ
packet_version = 1

abbrev pub packet_header_bytes : ℕ
packet_header_bytes = 24

-- The little-endian bytes of the samples, and the samples that whole pairs of bytes make up.
unfoldable pub samples_to_bytes : List ℕ → List ℕ
unfolding to_le_bytes
samples_to_bytes [] = []
samples_to_bytes (s ∷ ss) = to_le_bytes 2 s ++ samples_to_bytes ss

unfoldable pub bytes_to_samples : List ℕ → List ℕ
unfolding from_le_bytes
bytes_to_samples [] = []
bytes_to_samples (a ∷ []) = []
bytes_to_samples (a ∷ b ∷ bs) = from_le_bytes (a ∷ b ∷ []) ∷ bytes_to_samples bs

unfoldable pub format_code : AudioFormat → Result ℕ AudioPacketError
format_code format =
    if same_format format hfp_narrowband
    then ok 1
    else if same_format format hfp_wideband
    then ok 2
    else err unsupported_format

unfoldable pub encode : AudioPacket → Result (List ℕ) AudioPacketError
unfolding format_code
encode packet = do
  let frame = packet.frame
  ensure (leb frame.sequence i64_max) sequence_out_of_range
  format ← format_code frame.format
  ok (
      packet_magic
      ++ (packet_version
          ∷ format
          ∷ 0
          ∷ 0
          ∷ (to_be_bytes 8 frame.sequence
              ++ (to_be_bytes 8 packet.capture_time_micros ++ samples_to_bytes frame.samples))))

unfoldable pub has_header : List ℕ → Bool
unfolding same
has_header packet = not (
    ltb (length packet) packet_header_bytes
    || not (same (take 4 packet) packet_magic)
    || not (get_or packet 4 0 == packet_version)
    || not (get_or packet 6 0 == 0)
    || not (get_or packet 7 0 == 0))

unfoldable pub format_of_code : ℕ → Result AudioFormat AudioPacketError
format_of_code code =
    if code == 1
    then ok hfp_narrowband
    else if code == 2
    then ok hfp_wideband
    else err unsupported_format

unfoldable pub decode : List ℕ → Result AudioPacket AudioPacketError
unfolding has_header format_of_code
decode packet = do
  ensure (has_header packet) invalid_header
  format ← format_of_code (get_or packet 5 0)
  let payload = drop packet_header_bytes packet
  ensure (length payload == format.samples_per_channel * 2) invalid_payload
  let sequence = from_be_bytes (take 8 (drop 8 packet))
  ensure (leb sequence i64_max) sequence_out_of_range
  let capture_time_micros = from_be_bytes (take 8 (drop 16 packet))
  frame ← or_err (new_frame sequence format (bytes_to_samples payload)) invalid_payload
  ok (record { capture_time_micros = capture_time_micros; frame = frame })
