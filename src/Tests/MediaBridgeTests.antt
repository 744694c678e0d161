-- ===== src/Tests/MediaBridgeTests.antt =====
-- The PCM streams and the media bridge of crates/analogconnectd/src/audio.rs.
use analogconnect.Base.{
  ℕ, zero, suc, ◌≡◌, false, refl, List, [], ◌∷◌, ◌++◌, none, some, ok, replicate, take, arith, inl,
}
use analogconnect.Core.Audio.{AudioFrame, hfp_narrowband, new_frame}
use analogconnect.Core.Audio.Packet.{samples_to_bytes}
use analogconnect.Core.Audio.RoundTrip.{IsPacket}
use analogconnect.Daemon.Audio.Jitter
use analogconnect.Daemon.Audio.Jitter.{JitterBuffer, empty_summary, insert_frame}
use analogconnect.Daemon.Audio.Pcm.{
  ReadEvent, chunk, interrupted, PcmFrameReader, PcmFrameWriter, new_reader, new_writer,
  validate_hfp_format, write_frame,
}
use analogconnect.Daemon.Audio.Pcm.RoundTrip.{
  IsFrame, content, IsFlowing, write_frames, read_frames, read_frames-write_frames,
}
use analogconnect.Daemon.Audio.MediaBridge.{
  FramedPcmMediaBridge, new_media, encode_downlink, receive_uplink,
}
use analogconnect.Daemon.Audio.MediaBridge.Delivered.{
  MediaOp, receives, plays, AreWhole, delivered, delivered-new_media,
  receive_uplink-encode_downlink,
}

abbrev frame : ℕ → AudioFrame
frame n = record { sequence = n; format = hfp_narrowband; samples = replicate 60 513 }

frame-IsFrame : (n : ℕ) → IsFrame hfp_narrowband (frame n)
frame-IsFrame n = record { same = refl; sized = refl; samples_fit = omega arith }

-- The bytes of two frames, in three reads of uneven sizes and an interruption.
abbrev pcm_bytes : ℕ → List ℕ
pcm_bytes zero = []
pcm_bytes (suc n) = 1 ∷ 2 ∷ pcm_bytes n

abbrev events : List ReadEvent
events =
    chunk (pcm_bytes 10 ++ (1 ∷ []))
    ∷ interrupted
    ∷ chunk (2 ∷ pcm_bytes 100)
    ∷ chunk (pcm_bytes 9)
    ∷ []

abbrev writer : PcmFrameWriter
writer = record { written = []; room = none; format = hfp_narrowband }

abbrev reader : PcmFrameReader
reader = record { reader = events; format = hfp_narrowband; next_sequence = 0 }

new_writer-writer : new_writer [] none hfp_narrowband ≡ ok writer
unfolding new_writer validate_hfp_format
new_writer-writer = refl

new_reader-reader : new_reader events hfp_narrowband ≡ ok reader
unfolding new_reader validate_hfp_format
new_reader-reader = refl

content-events : content events ≡ (write_frames writer (frame 4 ∷ frame 9 ∷ [])).written
unfolding write_frame samples_to_bytes
content-events = refl

events-IsFlowing : IsFlowing events
events-IsFlowing = (omega arith, (omega arith, (omega arith, tt)))

read_frames-write_frames_example :
    read_frames 2 reader ≡ ok (some (frame 0)) ∷ ok (some (frame 1)) ∷ []
read_frames-write_frames_example =
    read_frames-write_frames hfp_narrowband (frame 4 ∷ frame 9 ∷ []) events writer reader
      (frame-IsFrame 4, (frame-IsFrame 9, tt)) (omega arith) new_writer-writer new_reader-reader
      events-IsFlowing content-events

abbrev buffer : JitterBuffer
buffer = record {
  capacity = 3;
  target_depth = 1;
  frames = [];
  next_sequence = none;
  started = false;
  summary = empty_summary;
}

abbrev bridge : FramedPcmMediaBridge
bridge = record { format = hfp_narrowband; uplink = buffer }

new_media-bridge : new_media hfp_narrowband 3 1 ≡ ok bridge
unfolding new_media validate_hfp_format Jitter.new
new_media-bridge = refl

-- A packet of silence with sequence number 0, and one that is cut short.
abbrev silence : List ℕ
silence = b'A' ∷ b'C' ∷ b'A' ∷ b'P' ∷ 1 ∷ 1 ∷ 0 ∷ 0 ∷ replicate 136 0

abbrev ops : List MediaOp
ops = receives silence ∷ receives (take 100 silence) ∷ plays ∷ plays ∷ []

delivered-new_media_example : AreWhole hfp_narrowband (delivered bridge ops)
delivered-new_media_example = delivered-new_media hfp_narrowband 3 1 bridge ops new_media-bridge

frame-IsPacket : IsPacket (record { capture_time_micros = 5; frame = frame 3 })
unfolding new_frame
frame-IsPacket = record {
  supported = inl refl;
  made = refl;
  sequence_fits = omega arith;
  time_fits = omega arith;
  samples_fit = omega arith;
}

receive_uplink-encode_downlink_example :
    (packet : List ℕ) × (encode_downlink bridge (frame 3) 5 ≡ ok packet)
    × (receive_uplink bridge packet
        ≡ (record bridge { uplink = insert_frame buffer (frame 3) }, ok tt))
receive_uplink-encode_downlink_example =
    receive_uplink-encode_downlink bridge bridge (frame 3) 5 refl refl frame-IsPacket
