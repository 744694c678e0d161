-- ===== src/Daemon/Server/Stream/Accepted.antt =====
-- The messages that `decode_audio_batch` accepts.
use analogconnect.Base.{
  ℕ, zero, suc, ◌≤◌, ◌<◌, ◌≡◌, refl, sym, ap, ◌∙◌, inl, inr, Option, none, some, true, List, [],
  ◌∷◌, ◌++◌, ok, length, take, drop, get_or, leb, arith, Bool-cases, leb→le, append-nil,
  append_assoc, bound, passed, or_err-ok, ok_injective, subst, take-append-drop,
}
use analogconnect.Base.Words.{i64_max, IsBytes}
use analogconnect.Core.Audio.{AudioFormat, AudioFrame, same_format}
use analogconnect.Core.Audio.Packet.{AudioPacket, encode, sequence_out_of_range}
use analogconnect.Core.Audio.Canonical.{decode-encode, IsBytes-take, IsBytes-drop}
use analogconnect.Daemon.Audio.Jitter.{checked_suc}
use analogconnect.Daemon.Audio.MediaBridge.Delivered.{same_format→eq}
use analogconnect.Daemon.Server.Stream.{
  invalid_packet, is_expected, decode_frames, decode_audio_batch, complete, next_packet,
  packet_size, ends_well,
}
use analogconnect.Daemon.Server.Stream.Batches.{
  checked_suc_small, ArePackets, Continue, AreConsecutive,
}

-- A packet that the loop reads at the front of the bytes.
record IsNext (format : Option AudioFormat) (sequence : Option ℕ) (bytes : List ℕ) (p : AudioPacket)
    (rest : List ℕ) : Type 0 where
  encoded : (packet : List ℕ) × (encode p ≡ ok packet) × (bytes ≡ packet ++ rest)
  expected : is_expected format sequence p.frame ≡ true
  kept : IsBytes rest

next_packet-IsNext :
    (format : Option AudioFormat) (sequence : Option ℕ) (bytes : List ℕ)
    (next : AudioPacket × List ℕ)
    → IsBytes bytes
    → next_packet format sequence bytes ≡ ok next
    → IsNext format sequence bytes next.0 next.1
unfolding next_packet
next_packet-IsNext format sequence bytes next v h =
    let (long, h₁) = passed (leb 6 (length bytes)) invalid_packet _ h in
    let (size, sized, h₂) = bound (packet_size (get_or bytes 5 0)) _ h₁ in
    let (fits, h₃) = passed (leb size (length bytes)) invalid_packet _ h₂ in
    let (p, decoded, h₄) = bound _ _ h₃ in
    let (expected, h₅) = passed (is_expected format sequence p.frame) invalid_packet _ h₄ in
    let (ends, h₆) =
      passed (ends_well (checked_suc p.frame.sequence) (drop size bytes)) invalid_packet _ h₅ in
    let made : IsNext format sequence bytes p (drop size bytes) = record {
      encoded = (
        take size bytes,
        decode-encode (take size bytes) p (IsBytes-take size bytes v)
            (or_err-ok _ invalid_packet decoded),
        sym (take-append-drop size bytes),
      );
      expected = expected;
      kept = IsBytes-drop size bytes v;
    } in
    subst (λ (n : AudioPacket × List ℕ). IsNext format sequence bytes n.0 n.1) (ok_injective h₆)
      made

abbrev from_first : ℕ → (ℕ → ℕ) → ℕ → ℕ
from_first time times zero = time
from_first time times (suc n) = times n

-- Frames that the loop may read, given the expected format and sequence.
abbrev Follow : Option AudioFormat → Option ℕ → List AudioFrame → Type 0
Follow format sequence [] = Unit {0}
Follow format sequence (frame ∷ frames) =
    (is_expected format sequence frame ≡ true)
    × (frame.sequence ≤ i64_max)
    × Follow (some frame.format) (checked_suc frame.sequence) frames

-- What the loop has read, and what it leaves.
record IsRead (room : ℕ) (format : Option AudioFormat) (sequence : Option ℕ) (bytes : List ℕ)
    (frames : List AudioFrame) (rest : List ℕ) : Type 0 where
  few : length frames ≤ room
  follow : Follow format sequence frames
  packets :
      (times : ℕ → ℕ) × (used : List ℕ) × ArePackets times frames used × (bytes ≡ used ++ rest)

encode_small :
    (p : AudioPacket) (packet : List ℕ) → encode p ≡ ok packet → p.frame.sequence ≤ i64_max
unfolding encode
encode_small p packet h =
    leb→le _ _ ((passed (leb p.frame.sequence i64_max) sequence_out_of_range _ h).0)

decode_frames-IsRead :
    (room : ℕ) (format : Option AudioFormat) (sequence : Option ℕ) (bytes : List ℕ)
    (result : List AudioFrame × List ℕ)
    → IsBytes bytes
    → decode_frames room format sequence bytes ≡ ok result
    → IsRead room format sequence bytes result.0 result.1
unfolding decode_frames
decode_frames-IsRead zero format sequence bytes result v h =
    subst (λ (r : List AudioFrame × List ℕ). IsRead zero format sequence bytes r.0 r.1)
      (ok_injective h)
      (record { few = omega arith; follow = tt; packets = ((λ _. 0), [], refl, refl) })
decode_frames-IsRead (suc room) format sequence [] result v h =
    subst (λ (r : List AudioFrame × List ℕ). IsRead (suc room) format sequence [] r.0 r.1)
      (ok_injective h)
      (record { few = omega arith; follow = tt; packets = ((λ _. 0), [], refl, refl) })
decode_frames-IsRead (suc room) format sequence (byte ∷ bytes) result v h =
    let (next, found, h₁) = bound _ _ h in
    let n = next_packet-IsNext format sequence (byte ∷ bytes) next v found in
    let (more, continued, h₂) = bound _ _ h₁ in
    let (packet, written, split) = n.encoded in
    let p = next.0 in
    let ih =
      decode_frames-IsRead room (some p.frame.format) (checked_suc p.frame.sequence) next.1 more
        n.kept continued in
    let (times, used, packets, tail) = ih.packets in
    subst
      (λ (r : List AudioFrame × List ℕ). IsRead (suc room) format sequence (byte ∷ bytes) r.0 r.1)
      (ok_injective h₂)
      (record {
        few = let l = ih.few in omega arith;
        follow = (n.expected, encode_small p packet written, ih.follow);
        packets = (
          from_first p.capture_time_micros times,
          packet ++ used,
          (packet, used, written, refl, packets),
          split ∙ ap (◌++◌ packet) tail ∙ sym (append_assoc packet used more.1),
        );
      })

expected_same :
    (last frame : AudioFrame) (sequence : ℕ)
    → sequence ≡ suc last.sequence
    → is_expected (some last.format) (some sequence) frame ≡ true
    → (frame.format ≡ last.format) × (frame.sequence ≡ suc last.sequence)
expected_same last frame sequence e h = elim (Bool-cases (same_format last.format frame.format)) [
  | inl t ↦ (sym (same_format→eq last.format frame.format t), ground arith)
  | inr f ↦ absurd (ground arith)
]

Follow-Continue :
    (last : AudioFrame) (frames : List AudioFrame)
    → last.sequence ≤ i64_max
    → Follow (some last.format) (checked_suc last.sequence) frames
    → Continue last frames
Follow-Continue last [] small f = tt
Follow-Continue last (frame ∷ frames) small f =
    let (e, s) = expected_same last frame (suc last.sequence) refl (
      subst (λ next. is_expected (some last.format) next frame ≡ true)
        (checked_suc_small last.sequence small) f.0) in
    (e, s, Follow-Continue frame frames f.1 f.2)

-- What `decode_audio_batch` promises of the bytes of a message and its frames.
pub record IsMessage (bytes : List ℕ) (frames : List AudioFrame) : Type 0 where
  pub some_frames : 0 < length frames
  pub few : length frames ≤ 4
  pub consecutive : AreConsecutive frames
  pub packets : (times : ℕ → ℕ) × ArePackets times frames bytes

complete-IsMessage :
    (bytes : List ℕ) (read : List AudioFrame × List ℕ) (frames : List AudioFrame)
    → IsRead 4 none none bytes read.0 read.1
    → complete read ≡ ok frames
    → IsMessage bytes frames
complete-IsMessage bytes ([], rest) frames r h = absurd (ground arith)
complete-IsMessage bytes (frame ∷ more, byte ∷ rest) frames r h = absurd (ground arith)
complete-IsMessage bytes (frame ∷ more, []) frames r h =
    let (times, used, packets, whole) = r.packets in
    subst (λ fs. IsMessage bytes fs) (ok_injective h)
      (record {
        some_frames = omega arith;
        few = r.few;
        consecutive = Follow-Continue frame more (r.follow).1 (r.follow).2;
        packets = (
          times,
          subst (λ b. ArePackets times (frame ∷ more) b) (sym (append-nil used) ∙ sym whole)
              packets,
        );
      })

-- The frames of a message that `decode_audio_batch` accepts are one to four, of one format, each
-- numbered one after the one before it; and the bytes of the message are exactly the packets that
-- `encode` writes for these frames, one after the other, for some capture times.
pub decode_audio_batch_sound :
    (bytes : List ℕ) (frames : List AudioFrame)
    → IsBytes bytes
    → decode_audio_batch bytes ≡ ok frames
    → IsMessage bytes frames
unfolding decode_audio_batch
decode_audio_batch_sound bytes frames v h =
    let (read, looped, h₁) = bound (decode_frames 4 none none bytes) complete h in
    complete-IsMessage bytes read frames (decode_frames-IsRead 4 none none bytes read v looped) h₁
