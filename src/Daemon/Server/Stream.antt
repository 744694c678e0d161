-- ===== src/Daemon/Server/Stream.antt =====
-- The messages of the media socket in lib.rs: up to four audio packets each way.
-- The time of each pop or push on a queue is given by a function of how many went before.
pub mod Batches
pub mod Accepted
pub mod Uplink
use analogconnect.Base.{
  ℕ, zero, suc, ◌+◌, Bool, true, false, not, ◌&&◌, ◌||◌, Option, none, some, List, [], ◌∷◌, ◌++◌,
  Result, ok, err, ◌>>=◌, ◌>>◌, ensure, or_err, length, take, drop, get_or, leb, ◌==◌,
  if◌then◌else◌, ◌/◌, min,
}
use analogconnect.Base.Words.{u64_max}
use analogconnect.Core.Audio.{AudioFormat, AudioFrame, same_format}
use analogconnect.Core.Audio.Packet.{AudioPacket, AudioPacketError, encode, decode}
use analogconnect.Daemon.Audio.Jitter.{checked_suc}
use analogconnect.Daemon.Audio.Queue.{BoundedAudioQueue, AudioBridge, push, pop}

pub data MediaStreamError : Type 0 where
  invalid_packet queue_unavailable : MediaStreamError

abbrev pub max_media_frames_per_message : ℕ
max_media_frames_per_message = 4

unfoldable pub packet_size : ℕ → Result ℕ MediaStreamError
packet_size code = if code == 1 then ok 144 else if code == 2 then ok 264 else err invalid_packet

-- `expected_format` and `expected_sequence` are `None` or those of the packet.
abbrev pub is_expected : Option AudioFormat → Option ℕ → AudioFrame → Bool
is_expected none none frame = true
is_expected none (some sequence) frame = sequence == frame.sequence
is_expected (some format) none frame = same_format format frame.format
is_expected (some format) (some sequence) frame =
    same_format format frame.format && sequence == frame.sequence

abbrev pub ends_well : Option ℕ → List ℕ → Bool
ends_well (some sequence) rest = true
ends_well none [] = true
ends_well none (byte ∷ rest) = false

-- The packet at the front of the bytes, and the bytes after it.
unfoldable pub next_packet :
    Option AudioFormat → Option ℕ → List ℕ → Result (AudioPacket × List ℕ) MediaStreamError
unfolding packet_size
next_packet format sequence rest = do
  ensure (leb 6 (length rest)) invalid_packet
  size ← packet_size (get_or rest 5 0)
  ensure (leb size (length rest)) invalid_packet
  packet ← or_err (decode (take size rest)) invalid_packet
  ensure (is_expected format sequence packet.frame) invalid_packet
  ensure (ends_well (checked_suc packet.frame.sequence) (drop size rest)) invalid_packet
  ok (packet, drop size rest)

-- The loop, by how many frames there is room for; it leaves the bytes that it has not read.
unfoldable pub decode_frames :
    ℕ → Option AudioFormat → Option ℕ → List ℕ → Result (List AudioFrame × List ℕ) MediaStreamError
unfolding next_packet
decode_frames zero format sequence bytes = ok ([], bytes)
decode_frames (suc room) format sequence [] = ok ([], [])
decode_frames (suc room) format sequence (byte ∷ bytes) = do
  next ← next_packet format sequence (byte ∷ bytes)
  let frame = next.0.frame
  decoded ← decode_frames room (some frame.format) (checked_suc frame.sequence) next.1
  ok (frame ∷ decoded.0, decoded.1)

-- The checks after the loop.
abbrev pub complete : List AudioFrame × List ℕ → Result (List AudioFrame) MediaStreamError
complete ([], rest) = err invalid_packet
complete (frame ∷ frames, []) = ok (frame ∷ frames)
complete (frame ∷ frames, byte ∷ rest) = err invalid_packet

unfoldable pub decode_audio_batch : List ℕ → Result (List AudioFrame) MediaStreamError
decode_audio_batch bytes = decode_frames max_media_frames_per_message none none bytes >>= complete

unfoldable pub push_frames : BoundedAudioQueue → List AudioFrame → (ℕ → ℕ) → BoundedAudioQueue
push_frames q [] clock = q
push_frames q (frame ∷ frames) clock =
    push_frames (push q frame (clock 0)) frames (λ n. clock (suc n))

abbrev pub received :
    AudioBridge
    → (ℕ → ℕ)
    → Result (List AudioFrame) MediaStreamError
    → AudioBridge × Result (Unit {0}) MediaStreamError
received bridge clock (err e) = (bridge, err e)
received bridge clock (ok frames) =
    (record bridge { uplink = push_frames bridge.uplink frames clock }, ok tt)

unfoldable pub receive_uplink_packet :
    AudioBridge → List ℕ → (ℕ → ℕ) → AudioBridge × Result (Unit {0}) MediaStreamError
receive_uplink_packet bridge bytes clock = received bridge clock (decode_audio_batch bytes)

-- A packet is added to the batch, or is not encoded.
abbrev pub extended :
    BoundedAudioQueue
    → Result (List ℕ) AudioPacketError
    → BoundedAudioQueue × Result (List ℕ) MediaStreamError
    → BoundedAudioQueue × Result (List ℕ) MediaStreamError
extended q (err e) rest = (q, err invalid_packet)
extended q (ok packet) (q', ok bytes) = (q', ok (packet ++ bytes))
extended q (ok packet) (q', err e) = (q', err e)

-- One turn of the loop over the downlink queue, which ends if the queue is empty.
abbrev pub taken :
    ℕ
    → BoundedAudioQueue × Option AudioFrame
    → (BoundedAudioQueue → BoundedAudioQueue × Result (List ℕ) MediaStreamError)
    → BoundedAudioQueue × Result (List ℕ) MediaStreamError
taken capture_time_micros (q, none) rest = (q, ok [])
taken capture_time_micros (q, some frame) rest =
    extended q (encode (record { capture_time_micros = capture_time_micros; frame = frame }))
      (rest q)

unfoldable pub take_packets :
    ℕ → BoundedAudioQueue → ℕ → (ℕ → ℕ) → BoundedAudioQueue × Result (List ℕ) MediaStreamError
take_packets zero q capture_time_micros clock = (q, ok [])
take_packets (suc room) q capture_time_micros clock =
    taken capture_time_micros (pop q (clock 0))
      (λ q'. take_packets room q' capture_time_micros (λ n. clock (suc n)))

abbrev pub non_empty : Result (List ℕ) MediaStreamError → Result (Option (List ℕ)) MediaStreamError
non_empty (err e) = err e
non_empty (ok []) = ok none
non_empty (ok (byte ∷ bytes)) = ok (some (byte ∷ bytes))

-- `capture_time` is a duration in nanoseconds.
unfoldable pub take_downlink_batch :
    AudioBridge → ℕ → (ℕ → ℕ) → AudioBridge × Result (Option (List ℕ)) MediaStreamError
take_downlink_batch bridge capture_time clock =
    let capture_time_micros = min (capture_time / 1000) u64_max in
    let (downlink, batch) =
      take_packets max_media_frames_per_message bridge.downlink capture_time_micros clock in
    (record bridge { downlink = downlink }, non_empty batch)
