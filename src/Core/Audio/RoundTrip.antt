-- ===== src/Core/Audio/RoundTrip.antt =====
-- `encode` followed by `decode`, and the layout of the bytes between them.
use analogconnect.Base.{
  ℕ, ◌*◌, ◌^◌, ◌≤◌, ◌<◌, ◌≡◌, refl, sym, ap, ap₂, ◌∙◌, ◌⊎◌, inl, inr, false, List, [], ◌∷◌, ◌++◌,
  Result, ok, ◌>>=◌, ◌>>◌, ensure, or_err, leb, ltb, ◌==◌, le→leb, length-append, length, drop,
  arith, take-append, drop-append, drop-drop, ==_refl,
}
use analogconnect.Base.Words.{
  i64_max, to_be_bytes, from_be_bytes, from_be_bytes-to_be_bytes, length-to_be_bytes,
}
use analogconnect.Core.Audio.{AudioFormat, AudioFrame, hfp_narrowband, hfp_wideband, new_frame}
use analogconnect.Core.Audio.Packet.{
  AudioPacket, AudioPacketError, invalid_payload, sequence_out_of_range, samples_to_bytes,
  bytes_to_samples, encode, decode, packet_magic, packet_version, packet_header_bytes, format_code,
  format_of_code,
}

abbrev pub AreSamples : List ℕ → Type 0
AreSamples [] = Unit {0}
AreSamples (s ∷ ss) = (s < 65536) × AreSamples ss

pub bytes_to_samples-samples_to_bytes :
    (ss : List ℕ) → AreSamples ss → bytes_to_samples (samples_to_bytes ss) ≡ ss
unfolding bytes_to_samples samples_to_bytes
bytes_to_samples-samples_to_bytes [] h = refl
bytes_to_samples-samples_to_bytes (s ∷ ss) h =
    ap₂ ◌∷◌ (omega arith) (bytes_to_samples-samples_to_bytes ss h.1)

pub length-samples_to_bytes : (ss : List ℕ) → length (samples_to_bytes ss) ≡ length ss * 2
unfolding samples_to_bytes
length-samples_to_bytes [] = refl
length-samples_to_bytes (s ∷ ss) = omega (arith, length-samples_to_bytes ss)

-- A packet that the source can hold: made of a frame of one of the two HFP formats that
-- `AudioFrame::new` accepts, with words in their ranges.
pub record IsPacket (p : AudioPacket) : Type 0 where
  pub supported : (p.frame.format ≡ hfp_narrowband) ⊎ (p.frame.format ≡ hfp_wideband)
  pub made : new_frame p.frame.sequence p.frame.format p.frame.samples ≡ ok p.frame
  pub sequence_fits : p.frame.sequence ≤ i64_max
  pub time_fits : p.capture_time_micros < 2 ^ 64
  pub samples_fit : AreSamples p.frame.samples

abbrev pub layout : ℕ → List ℕ → List ℕ → List ℕ → List ℕ
layout code sequence time payload =
    packet_magic ++ (packet_version ∷ code ∷ 0 ∷ 0 ∷ (sequence ++ (time ++ payload)))

-- `decode` past the fixed bytes of the header.
unfoldable pub decode_fields : ℕ → ℕ → ℕ → List ℕ → Result AudioPacket AudioPacketError
unfolding format_of_code
decode_fields code sequence time payload = do
  format ← format_of_code code
  ensure (length payload == format.samples_per_channel * 2) invalid_payload
  ensure (leb sequence i64_max) sequence_out_of_range
  frame ← or_err (new_frame sequence format (bytes_to_samples payload)) invalid_payload
  ok (record { capture_time_micros = time; frame = frame })

pub decode-layout :
    (code : ℕ) (sequence time payload : List ℕ)
    → length sequence ≡ 8
    → length time ≡ 8
    → decode (layout code sequence time payload)
      ≡ decode_fields code (from_be_bytes sequence) (from_be_bytes time) payload
unfolding decode decode_fields
decode-layout code sequence time payload ls lt =
    let rest = sequence ++ (time ++ payload) in
    let skip : drop 8 rest ≡ time ++ payload = drop-append 8 sequence (time ++ payload) ls in
    let size : ltb (length (layout code sequence time payload)) packet_header_bytes ≡ false =
      ground (arith, length-append sequence (time ++ payload), length-append time payload) in
    let tail : drop 16 rest ≡ payload =
      sym (drop-drop 8 8 rest) ∙ ap (drop 8) skip ∙ drop-append 8 time payload lt in
    rw
      (size, tail, skip, take-append 8 sequence (time ++ payload) ls, take-append 8 time payload lt)

pub encode-layout :
    (p : AudioPacket) (code : ℕ)
    → format_code p.frame.format ≡ ok code
    → p.frame.sequence ≤ i64_max
    → encode p
      ≡ ok (
          layout code
            (to_be_bytes 8 p.frame.sequence)
            (to_be_bytes 8 p.capture_time_micros)
            (samples_to_bytes p.frame.samples))
unfolding encode
encode-layout p code known small = rw (known, le→leb _ _ small)

-- The codes and the two formats name one another.
pub format_code-cases :
    (f : AudioFormat)
    → (f ≡ hfp_narrowband) ⊎ (f ≡ hfp_wideband)
    → (code : ℕ) × (format_code f ≡ ok code) × (format_of_code code ≡ ok f)
unfolding format_code format_of_code
format_code-cases f (inl e) = (1, rw e, rw e)
format_code-cases f (inr e) = (2, rw e, rw e)

pub made_samples :
    (sequence : ℕ) (f : AudioFormat) (samples : List ℕ) {frame : AudioFrame}
    → (f ≡ hfp_narrowband) ⊎ (f ≡ hfp_wideband)
    → new_frame sequence f samples ≡ ok frame
    → length samples ≡ f.samples_per_channel
unfolding new_frame
made_samples sequence f samples (inl e) made = ground arith
made_samples sequence f samples (inr e) made = ground arith

decode_fields-lem :
    (p : AudioPacket) (code : ℕ)
    → IsPacket p
    → format_of_code code ≡ ok p.frame.format
    → decode_fields code p.frame.sequence p.capture_time_micros (samples_to_bytes p.frame.samples)
      ≡ ok p
unfolding decode_fields
decode_fields-lem p code v known =
    let count : length (samples_to_bytes p.frame.samples) ≡ p.frame.format.samples_per_channel * 2 =
      omega (
        arith,
        length-samples_to_bytes p.frame.samples,
        made_samples p.frame.sequence p.frame.format p.frame.samples v.supported v.made,
      ) in
    rw (
      known,
      count,
      ==_refl (p.frame.format.samples_per_channel * 2),
      le→leb _ _ v.sequence_fits,
      bytes_to_samples-samples_to_bytes p.frame.samples v.samples_fit,
      v.made,
    )

-- What `encode` writes for a packet that the source can hold, `decode` reads back as that packet;
-- neither of the two fails.
pub encode-decode : (p : AudioPacket) → IsPacket p → (encode p >>= decode) ≡ ok p
encode-decode p v =
    let (code, known, back) = format_code-cases p.frame.format v.supported in
    rw (
      encode-layout p code known v.sequence_fits,
      decode-layout code _ _ _ (length-to_be_bytes 8 _) (length-to_be_bytes 8 _),
      from_be_bytes-to_be_bytes 8 p.frame.sequence (let h = v.sequence_fits in omega arith),
      from_be_bytes-to_be_bytes 8 p.capture_time_micros v.time_fits,
      decode_fields-lem p code v back,
    )
