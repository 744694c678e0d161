-- ===== src/Tests/StreamTests.antt =====
-- The messages of the media socket in crates/analogconnectd/src/lib.rs.
use analogconnect.Base.{
  ℕ, ◌<◌, ◌≡◌, ◌⊎◌, refl, inl, replicate, List, [], ◌∷◌, ◌++◌, ok, err, some, newest, arith,
}
use analogconnect.Base.Text.{same}
use analogconnect.Base.Words.{from_be_bytes}
use analogconnect.Core.Audio.{AudioFrame, hfp_narrowband, new_frame}
use analogconnect.Core.Audio.Packet.{decode, bytes_to_samples}
use analogconnect.Core.Audio.RoundTrip.{IsPacket}
use analogconnect.Daemon.Audio.Queue.{BoundedAudioQueue, QueuedFrame, AudioBridge, empty_summary}
use analogconnect.Daemon.Server.Stream.{
  MediaStreamError, invalid_packet, packet_size, next_packet, decode_frames, decode_audio_batch,
  take_downlink_batch, receive_uplink_packet,
}
use analogconnect.Daemon.Server.Stream.Batches.{stamped, take_downlink_batch-decode_audio_batch}
use analogconnect.Daemon.Server.Stream.Accepted.{IsMessage, decode_audio_batch_sound}
use analogconnect.Daemon.Server.Stream.Uplink.{queued_at, receive_uplink_packet_lem}

abbrev numbered : ℕ → AudioFrame
numbered n = record { sequence = n; format = hfp_narrowband; samples = replicate 60 0 }

abbrev queue : List QueuedFrame → BoundedAudioQueue
queue frames = record { capacity = 8; frames = frames; summary = empty_summary }

abbrev entry : ℕ → QueuedFrame
entry n = record { frame = numbered n; enqueued_at = n }

abbrev bridge : AudioBridge
bridge = record { uplink = queue []; downlink = queue (entry 1 ∷ entry 2 ∷ []) }

numbered-IsPacket : (n : ℕ) → n < 1000 → IsPacket (stamped 3 (numbered n))
unfolding new_frame
numbered-IsPacket n h = record {
  supported = inl refl;
  made = refl;
  sequence_fits = omega arith;
  time_fits = omega arith;
  samples_fit = omega arith;
}

take_downlink_batch-decode_audio_batch_example :
    (bytes : List ℕ) × ((take_downlink_batch bridge 3999 (λ n. n)).1 ≡ ok (some bytes))
    × (decode_audio_batch bytes ≡ ok (numbered 1 ∷ numbered 2 ∷ []))
    × ((take_downlink_batch bridge 3999 (λ n. n)).0.downlink.frames ≡ [])
    × ((take_downlink_batch bridge 3999 (λ n. n)).0.uplink ≡ queue [])
take_downlink_batch-decode_audio_batch_example =
    take_downlink_batch-decode_audio_batch bridge 3999 (λ n. n) (entry 1) (entry 2 ∷ []) refl
      (numbered-IsPacket 1 (omega arith), (numbered-IsPacket 2 (omega arith), tt)) (refl, refl, tt)

-- A narrowband packet of silence at a sequence below 256.
abbrev wire : ℕ → List ℕ
wire n = b'A' ∷ b'C' ∷ b'A' ∷ b'P' ∷ 1 ∷ 1 ∷ 0 ∷ 0 ∷ 0 ∷ 0 ∷ 0 ∷ 0 ∷ 0 ∷ 0 ∷ 0 ∷ n ∷ replicate 128 0

decode_two : decode_audio_batch (wire 5 ++ wire 6) ≡ ok (numbered 5 ∷ numbered 6 ∷ [])
unfolding decode_audio_batch decode_frames next_packet packet_size decode new_frame same
    bytes_to_samples from_be_bytes
decode_two = refl

decode_gap : decode_audio_batch (wire 5 ++ wire 7) ≡ err invalid_packet
unfolding decode_audio_batch decode_frames next_packet packet_size decode new_frame same
    bytes_to_samples from_be_bytes
decode_gap = refl

decode_audio_batch_sound_example : IsMessage (wire 5 ++ wire 6) (numbered 5 ∷ numbered 6 ∷ [])
decode_audio_batch_sound_example =
    decode_audio_batch_sound (wire 5 ++ wire 6) (numbered 5 ∷ numbered 6 ∷ []) (omega arith)
      decode_two

receive_uplink_packet_lem_example :
    ((frames : List AudioFrame) × (decode_audio_batch (wire 5) ≡ ok frames)
      × ((receive_uplink_packet bridge (wire 5) (λ n. n)).1 ≡ ok tt)
      × ((receive_uplink_packet bridge (wire 5) (λ n. n)).0.uplink.frames
          ≡ newest 8 (queued_at frames (λ n. n)))
      × ((receive_uplink_packet bridge (wire 5) (λ n. n)).0.downlink ≡ bridge.downlink))
    ⊎ ((e : MediaStreamError) × (decode_audio_batch (wire 5) ≡ err e)
        × (receive_uplink_packet bridge (wire 5) (λ n. n) ≡ (bridge, err e)))
receive_uplink_packet_lem_example =
    receive_uplink_packet_lem bridge (wire 5) (λ n. n) (omega arith) (omega arith)
