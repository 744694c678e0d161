-- ===== src/Core/Audio/Canonical.antt =====
-- `decode` followed by `encode`, and the layout of the bytes between them.
use analogconnect.Base.{
  ℕ, zero, suc, ◌-◌, ◌++◌, ◌*◌, ◌≤◌, ◌≡◌, refl, sym, ap, ap₂, ◌∙◌, inl, inr, true, List, [], ◌∷◌,
  ok, length, take, drop, get_or, arith, take-append-drop, drop-drop, length-take, length-drop,
  Bool-cases,
}
use analogconnect.Base.Text.{same}
use analogconnect.Base.Words.{
  IsBytes, i64_max, to_be_bytes, from_be_bytes, to_be_bytes-from_be_bytes,
}
use analogconnect.Core.Audio.{new_frame}
use analogconnect.Core.Audio.Packet.{
  AudioPacket, samples_to_bytes, bytes_to_samples, encode, decode, has_header, format_code,
}
use analogconnect.Core.Audio.RoundTrip.{layout, decode_fields, decode-layout, encode-layout}

samples_to_bytes-bytes_to_samples :
    (n : ℕ) (bs : List ℕ)
    → IsBytes bs
    → length bs ≡ n * 2
    → samples_to_bytes (bytes_to_samples bs) ≡ bs
unfolding samples_to_bytes bytes_to_samples
samples_to_bytes-bytes_to_samples n [] h e = refl
samples_to_bytes-bytes_to_samples n (a ∷ []) h e = absurd (omega arith)
samples_to_bytes-bytes_to_samples n (a ∷ b ∷ bs) h e = ap₂ ◌∷◌ (let ha = h.0 in omega arith) (
    ap₂ ◌∷◌ (let hb = h.1 in omega arith)
      (samples_to_bytes-bytes_to_samples (n - 1) bs h.1.1 (omega arith)))

pub IsBytes-drop : (n : ℕ) (bs : List ℕ) → IsBytes bs → IsBytes (drop n bs)
IsBytes-drop zero bs h = h
IsBytes-drop (suc n) [] h = h
IsBytes-drop (suc n) (b ∷ bs) h = IsBytes-drop n bs h.1

pub IsBytes-take : (n : ℕ) (bs : List ℕ) → IsBytes bs → IsBytes (take n bs)
IsBytes-take zero bs h = tt
IsBytes-take (suc n) [] h = tt
IsBytes-take (suc n) (b ∷ bs) h = (h.0, IsBytes-take n bs h.1)

fields : (rest : List ℕ) → rest ≡ take 8 rest ++ (take 8 (drop 8 rest) ++ drop 16 rest)
fields rest =
    sym (take-append-drop 8 rest)
    ∙ ap (◌++◌ (take 8 rest)) (
        sym (take-append-drop 8 (drop 8 rest))
        ∙ ap (◌++◌ (take 8 (drop 8 rest))) (drop-drop 8 8 rest))

-- A packet with a valid header is its code, its two words and its payload.
header_layout :
    (packet : List ℕ)
    → has_header packet ≡ true
    → (24 ≤ length packet)
      × (packet
          ≡ layout
              (get_or packet 5 0)
              (take 8 (drop 8 packet))
              (take 8 (drop 16 packet))
              (drop 24 packet))
unfolding has_header same
header_layout (a ∷ b ∷ c ∷ d ∷ e ∷ f ∷ g ∷ h ∷ rest) ok_header = ground (arith, fields rest)
header_layout _ ok_header = absurd (ground arith)

record Decoded (code sequence time : ℕ) (payload : List ℕ) (p : AudioPacket) : Type 0 where
  known : format_code p.frame.format ≡ ok code
  even : length payload ≡ p.frame.format.samples_per_channel * 2
  small : p.frame.sequence ≤ i64_max
  sequence_kept : p.frame.sequence ≡ sequence
  time_kept : p.capture_time_micros ≡ time
  samples_kept : p.frame.samples ≡ bytes_to_samples payload

decode_fields-Decoded :
    (code sequence time : ℕ) (payload : List ℕ) {p : AudioPacket}
    → decode_fields code sequence time payload ≡ ok p
    → Decoded code sequence time payload p
unfolding decode_fields new_frame format_code
decode_fields-Decoded code sequence time payload h = ground arith

decode_header :
    (packet : List ℕ) {p : AudioPacket} → decode packet ≡ ok p → has_header packet ≡ true
unfolding decode
decode_header packet h = elim (Bool-cases (has_header packet)) [
  | inl e ↦ e
  | inr e ↦ absurd (ground arith)
]

word : (bs : List ℕ) → length bs ≡ 8 → IsBytes bs → to_be_bytes 8 (from_be_bytes bs) ≡ bs
word bs e h = ap (λ k. to_be_bytes k (from_be_bytes bs)) (sym e) ∙ to_be_bytes-from_be_bytes bs h

-- Bytes that `decode` accepts are exactly the bytes that `encode` writes for the decoded packet: no
-- packet has a second encoding.
pub decode-encode :
    (packet : List ℕ) (p : AudioPacket)
    → IsBytes packet
    → decode packet ≡ ok p
    → encode p ≡ ok packet
decode-encode packet p bytes h =
    let (long, shape) = header_layout packet (decode_header packet h) in
    let l1 : length (take 8 (drop 8 packet)) ≡ 8 =
      length-take 8 (drop 8 packet) (omega (arith, length-drop 8 packet)) in
    let l2 : length (take 8 (drop 16 packet)) ≡ 8 =
      length-take 8 (drop 16 packet) (omega (arith, length-drop 16 packet)) in
    let d =
      decode_fields-Decoded (get_or packet 5 0) (from_be_bytes (take 8 (drop 8 packet)))
        (from_be_bytes (take 8 (drop 16 packet))) (drop 24 packet) {p = p}
        (sym (decode-layout (get_or packet 5 0) _ _ (drop 24 packet) l1 l2)
          ∙ ap decode (sym shape)
          ∙ h) in
    let first : to_be_bytes 8 p.frame.sequence ≡ take 8 (drop 8 packet) =
      rw d.sequence_kept (word _ l1 (IsBytes-take 8 _ (IsBytes-drop 8 packet bytes))) in
    let second : to_be_bytes 8 p.capture_time_micros ≡ take 8 (drop 16 packet) =
      rw d.time_kept (word _ l2 (IsBytes-take 8 _ (IsBytes-drop 16 packet bytes))) in
    let last : samples_to_bytes p.frame.samples ≡ drop 24 packet = rw d.samples_kept (
      samples_to_bytes-bytes_to_samples p.frame.format.samples_per_channel (drop 24 packet)
        (IsBytes-drop 24 packet bytes) d.even) in
    encode-layout p (get_or packet 5 0) d.known d.small
    ∙ ap ok (rw (first, second, last) (sym shape))
