-- ===== src/Daemon/Server/Stream/Batches.antt =====
-- A message that `take_downlink_batch` makes, read by `decode_audio_batch`.
use analogconnect.Base.{
  ℕ, zero, suc, ◌≤◌, ◌<◌, ◌/◌, min, ◌≡◌, refl, ap, ◌∙◌, inl, inr, Option, none, some, true, List,
  [], ◌∷◌, ◌++◌, Result, ok, ◌>>=◌, length, map, take, drop, arith, take-append, drop-append,
  length-append, length-map, ==_refl, le→leb,
}
use analogconnect.Base.Words.{u64_max, i64_max}
use analogconnect.Core.Audio.{AudioFormat, AudioFrame}
use analogconnect.Core.Audio.Packet.{AudioPacket, encode}
use analogconnect.Core.Audio.RoundTrip.{IsPacket}
use analogconnect.Core.Audio.Sized.{IsCode, IsEncoding, encoded_packet}
use analogconnect.Daemon.Audio.Jitter.{checked_suc}
use analogconnect.Daemon.Audio.MediaBridge.Delivered.{eq→same_format}
use analogconnect.Daemon.Audio.Queue.{BoundedAudioQueue, QueuedFrame, AudioBridge, pop_front}
use analogconnect.Daemon.Audio.Queue.Newest.{pop-frames}
use analogconnect.Daemon.Server.Stream.{
  MediaStreamError, packet_size, next_packet, is_expected, decode_frames, taken, extended,
  decode_audio_batch, take_packets, take_downlink_batch, complete, non_empty,
  max_media_frames_per_message,
}

abbrev pub stamped : ℕ → AudioFrame → AudioPacket
stamped time frame = record { capture_time_micros = time; frame = frame }

-- The bytes are the packets of the frames, one after the other.
abbrev pub ArePackets : (ℕ → ℕ) → List AudioFrame → List ℕ → Type 0
ArePackets times [] bytes = bytes ≡ []
ArePackets times (frame ∷ frames) bytes =
    (packet : List ℕ) × (rest : List ℕ) × (encode (stamped (times 0) frame) ≡ ok packet)
    × (bytes ≡ packet ++ rest)
    × ArePackets (λ n. times (suc n)) frames rest

-- Frames that continue one: in its format, numbered from it on.
abbrev pub Continue : AudioFrame → List AudioFrame → Type 0
Continue last [] = Unit {0}
Continue last (frame ∷ frames) =
    (frame.format ≡ last.format) × (frame.sequence ≡ suc last.sequence) × Continue frame frames

abbrev pub AreConsecutive : List AudioFrame → Type 0
AreConsecutive [] = Unit {0}
AreConsecutive (frame ∷ frames) = Continue frame frames

-- Frames that the source can hold, to be stamped with a time.
abbrev pub AreFrames : ℕ → List AudioFrame → Type 0
AreFrames time [] = Unit {0}
AreFrames time (frame ∷ frames) = IsPacket (stamped time frame) × AreFrames time frames

abbrev decoded_next : ℕ → AudioFrame → List ℕ → Result (List AudioFrame × List ℕ) MediaStreamError
decoded_next room frame rest =
    decode_frames room (some frame.format) (some (suc frame.sequence)) rest >>= λ decoded.
    ok (frame ∷ decoded.0, decoded.1)

packet_size-code : (code size : ℕ) → IsCode code size → packet_size code ≡ ok size
unfolding packet_size
packet_size-code code size (inl (c, s)) = rw (c, s) refl
packet_size-code code size (inr (c, s)) = rw (c, s) refl

pub checked_suc_small : (n : ℕ) → n ≤ i64_max → checked_suc n ≡ some (suc n)
checked_suc_small n h = ground arith

decode_frames-packet :
    (room : ℕ) (format : Option AudioFormat) (sequence : Option ℕ) (p : AudioPacket)
    (packet rest : List ℕ) (code : ℕ)
    → IsEncoding p packet code
    → p.frame.sequence ≤ i64_max
    → is_expected format sequence p.frame ≡ true
    → decode_frames (suc room) format sequence (packet ++ rest) ≡ decoded_next room p.frame rest
unfolding decode_frames next_packet
decode_frames-packet room format sequence p [] rest code e small expected =
    absurd (let c = e.coded in ground arith)
decode_frames-packet room format sequence p (b ∷ bs) rest code e small expected =
    let size = length (b ∷ bs) in
    let long : size ≤ length ((b ∷ bs) ++ rest) = omega (arith, length-append (b ∷ bs) rest) in
    let least : 6 ≤ length ((b ∷ bs) ++ rest) = let c = e.coded in ground arith in
    rw
      (
        le→leb 6 (length ((b ∷ bs) ++ rest)) least,
        e.shown rest,
        packet_size-code code size e.coded,
        le→leb size (length ((b ∷ bs) ++ rest)) long,
        take-append size (b ∷ bs) rest refl,
        e.decoded,
        expected,
        checked_suc_small p.frame.sequence small,
        drop-append size (b ∷ bs) rest refl,
      )
      (ap
        (λ next. decode_frames room (some p.frame.format) next rest >>= λ decoded.
          ok (p.frame ∷ decoded.0, decoded.1))
        (checked_suc_small p.frame.sequence small))

expected_next :
    (last frame : AudioFrame)
    → frame.format ≡ last.format
    → frame.sequence ≡ suc last.sequence
    → is_expected (some last.format) (some (suc last.sequence)) frame ≡ true
expected_next last frame f s =
    rw (f, s, ==_refl (suc last.sequence), eq→same_format last.format last.format refl) refl

decode_frames-continued :
    (time room : ℕ) (last : AudioFrame) (frames : List AudioFrame) (bytes : List ℕ)
    → AreFrames time frames
    → Continue last frames
    → ArePackets (λ _. time) frames bytes
    → length frames ≤ room
    → decode_frames room (some last.format) (some (suc last.sequence)) bytes ≡ ok (frames, [])
unfolding decode_frames
decode_frames-continued time zero last [] bytes v c h few = rw h refl
decode_frames-continued time (suc room) last [] bytes v c h few = rw h refl
decode_frames-continued time zero last (frame ∷ frames) bytes v c h few = absurd (omega arith)
decode_frames-continued time (suc room) last (frame ∷ frames) bytes v c
      (packet, rest, written, e, h) few =
    let (bytes', code, p) = encoded_packet (stamped time frame) v.0 in
    let same : packet ≡ bytes' = ground (arith, written, p.encoded) in
    rw (e, same)
      (decode_frames-packet room (some last.format) (some (suc last.sequence)) (stamped time frame)
          bytes' rest code p v.0.sequence_fits (expected_next last frame c.0 c.1)
        ∙ ap (λ r. r >>= λ decoded. ok (frame ∷ decoded.0, decoded.1))
            (decode_frames-continued time room frame frames rest v.1 c.2 h (omega arith)))

decode_audio_batch-packets :
    (time : ℕ) (frame : AudioFrame) (frames : List AudioFrame) (bytes : List ℕ)
    → AreFrames time (frame ∷ frames)
    → Continue frame frames
    → ArePackets (λ _. time) (frame ∷ frames) bytes
    → length frames < max_media_frames_per_message
    → decode_audio_batch bytes ≡ ok (frame ∷ frames)
unfolding decode_audio_batch
decode_audio_batch-packets time frame frames bytes v c (packet, rest, written, e, h) few =
    let (bytes', code, p) = encoded_packet (stamped time frame) v.0 in
    let same : packet ≡ bytes' = ground (arith, written, p.encoded) in
    rw (e, same)
      (ap (λ r. r >>= complete)
        (decode_frames-packet 3 none none (stamped time frame) bytes' rest code p v.0.sequence_fits
            refl
          ∙ ap (λ r. r >>= λ decoded. ok (frame ∷ decoded.0, decoded.1))
              (decode_frames-continued time 3 frame frames rest v.1 c h (omega arith))))

extended-bytes :
    (q : BoundedAudioQueue) (packet bytes : List ℕ)
    (rest : BoundedAudioQueue × Result (List ℕ) MediaStreamError)
    → rest.1 ≡ ok bytes
    → extended q (ok packet) rest ≡ (rest.0, ok (packet ++ bytes))
extended-bytes q packet bytes (q', r) h = rw h refl

take_packets-frames :
    (time room : ℕ) (q : BoundedAudioQueue) (queued : List QueuedFrame) (clock : ℕ → ℕ)
    → q.frames ≡ queued
    → AreFrames time (map (λ entry. entry.frame) (take room queued))
    → (bytes : List ℕ) × ((take_packets room q time clock).1 ≡ ok bytes)
      × ArePackets (λ _. time) (map (λ entry. entry.frame) (take room queued)) bytes
      × ((take_packets room q time clock).0.frames ≡ drop room queued)
unfolding take_packets
take_packets-frames time zero q queued clock e v = ([], refl, refl, e)
take_packets-frames time (suc room) q [] clock e v =
    rw (pop-frames q [] (clock 0) e) ([], refl, refl, e)
take_packets-frames time (suc room) q (entry ∷ queued) clock e v =
    let (packet, code, p) = encoded_packet (stamped time entry.frame) v.0 in
    let q' = (pop_front q (entry ∷ queued) (clock 0)).0 in
    let (bytes, all, written, left) =
      take_packets-frames time room q' queued (λ n. clock (suc n)) refl v.1 in
    let rest = take_packets room q' time (λ n. clock (suc n)) in
    let step : take_packets (suc room) q time clock ≡ (rest.0, ok (packet ++ bytes)) =
      ap (λ popped. taken time popped (λ q''. take_packets room q'' time (λ n. clock (suc n))))
        (pop-frames q (entry ∷ queued) (clock 0) e)
      ∙ ap (λ r. extended q' r rest) p.encoded
      ∙ extended-bytes q' packet bytes rest all in
    (
      packet ++ bytes,
      ap (λ r. r.1) step,
      (packet, bytes, p.encoded, refl, written),
      ap (λ r. r.0.frames) step ∙ left,
    )

non_empty_bytes : (bytes : List ℕ) → 0 < length bytes → non_empty (ok bytes) ≡ ok (some bytes)
non_empty_bytes [] h = absurd (omega arith)
non_empty_bytes (b ∷ bytes) h = refl

packets_long :
    (time : ℕ) (frame : AudioFrame) (frames : List AudioFrame) (bytes : List ℕ)
    → IsPacket (stamped time frame)
    → ArePackets (λ _. time) (frame ∷ frames) bytes
    → 0 < length bytes
packets_long time frame frames bytes v (packet, rest, written, e, h) =
    let (bytes', code, p) = encoded_packet (stamped time frame) v in
    let same : packet ≡ bytes' = ground (arith, written, p.encoded) in
    let long : 0 < length bytes' = let c = p.coded in ground arith in
    rw (e, same) (omega (arith, long, length-append bytes' rest))

length-take-le : {A : Type 0} (n : ℕ) (xs : List A) → length (take n xs) ≤ n
length-take-le zero xs = omega arith
length-take-le (suc n) [] = omega arith
length-take-le (suc n) (x ∷ xs) = omega (arith, length-take-le n xs)

-- The downlink queue is not empty, and its first four frames, or all if there are fewer, are frames
-- that the source can hold, consecutive and of one format. Then `take_downlink_batch` succeeds, its
-- message is decoded by `decode_audio_batch` to these frames, which leave the queue while the others
-- stay, and the uplink queue is as before.
pub take_downlink_batch-decode_audio_batch :
    (bridge : AudioBridge) (capture_time : ℕ) (clock : ℕ → ℕ) (entry : QueuedFrame)
    (queued : List QueuedFrame)
    → bridge.downlink.frames ≡ entry ∷ queued
    → AreFrames (min (capture_time / 1000) u64_max) (map (λ e. e.frame) (take 4 (entry ∷ queued)))
    → AreConsecutive (map (λ e. e.frame) (take 4 (entry ∷ queued)))
    → (bytes : List ℕ) × ((take_downlink_batch bridge capture_time clock).1 ≡ ok (some bytes))
      × (decode_audio_batch bytes ≡ ok (map (λ e. e.frame) (take 4 (entry ∷ queued))))
      × ((take_downlink_batch bridge capture_time clock).0.downlink.frames
          ≡ drop 4 (entry ∷ queued))
      × ((take_downlink_batch bridge capture_time clock).0.uplink ≡ bridge.uplink)
unfolding take_downlink_batch
take_downlink_batch-decode_audio_batch bridge capture_time clock entry queued e v c =
    let time = min (capture_time / 1000) u64_max in
    let (bytes, taken, written, left) =
      take_packets-frames time 4 bridge.downlink (entry ∷ queued) clock e v in
    let few : length (map (λ e. e.frame) (take 3 queued)) < 4 =
      omega (arith, length-map (λ e. e.frame) (take 3 queued), length-take-le 3 queued) in
    (
      bytes,
      ap non_empty taken
          ∙ non_empty_bytes bytes (
              packets_long time entry.frame (map (λ e. e.frame) (take 3 queued)) bytes v.0 written),
      decode_audio_batch-packets time entry.frame (map (λ e. e.frame) (take 3 queued)) bytes v c
          written few,
      left,
      refl,
    )
