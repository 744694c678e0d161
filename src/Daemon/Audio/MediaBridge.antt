-- ===== src/Daemon/Audio/MediaBridge.antt =====
-- `FramedPcmMediaBridge`: between live frames and ACAP packets.
pub mod Delivered
use analogconnect.Base.{
  ℕ, Bool, true, false, not, Option, none, some, List, [], ◌∷◌, Result, ok, err, ◌>>=◌, ◌>>◌,
  or_err, if◌then◌else◌,
}
use analogconnect.Core.Audio.{AudioFormat, AudioFrame, same_format}
use analogconnect.Core.Audio.Packet
use analogconnect.Core.Audio.Packet.{AudioPacket, AudioPacketError, encode, decode}
use analogconnect.Daemon.Audio.Jitter
use analogconnect.Daemon.Audio.Jitter.{JitterBuffer, insert_frame, tick}
use analogconnect.Daemon.Audio.Pcm.{validate_hfp_format}

pub data FramedPcmMediaError : Type 0 where
  unsupported_format invalid_jitter_configuration format_mismatch invalid_packet :
      FramedPcmMediaError

pub record FramedPcmMediaBridge : Type 0 where
  pub format : AudioFormat
  pub uplink : JitterBuffer

unfoldable pub new_media : AudioFormat → ℕ → ℕ → Result FramedPcmMediaBridge FramedPcmMediaError
new_media format uplink_capacity uplink_target_depth = do
  or_err (validate_hfp_format format) unsupported_format
  uplink ← or_err (Jitter.new uplink_capacity uplink_target_depth) invalid_jitter_configuration
  ok (record { format = format; uplink = uplink })

unfoldable pub encode_downlink :
    FramedPcmMediaBridge → AudioFrame → ℕ → Result (List ℕ) FramedPcmMediaError
encode_downlink b frame capture_time_micros =
    if not (same_format frame.format b.format)
    then err format_mismatch
    else or_err (encode (record { capture_time_micros = capture_time_micros; frame = frame }))
        invalid_packet

-- The bridge after a packet that decodes.
abbrev pub accept :
    FramedPcmMediaBridge
    → Result AudioPacket AudioPacketError
    → FramedPcmMediaBridge × Result (Unit {0}) FramedPcmMediaError
accept b (err e) = (b, err invalid_packet)
accept b (ok packet) =
    if not (same_format packet.frame.format b.format)
    then (b, err format_mismatch)
    else (record b { uplink = insert_frame b.uplink packet.frame }, ok tt)

unfoldable pub receive_uplink :
    FramedPcmMediaBridge → List ℕ → FramedPcmMediaBridge × Result (Unit {0}) FramedPcmMediaError
receive_uplink b packet = accept b (decode packet)

unfoldable pub tick_uplink : FramedPcmMediaBridge → FramedPcmMediaBridge × Option AudioFrame
tick_uplink b = let (uplink, frame) = tick b.uplink in (record b { uplink = uplink }, frame)
