-- ===== src/Core/Audio/Sized.antt =====
-- The size of what `AudioPacket::encode` writes, and its code for the format.
use analogconnect.Base.{
  ℕ, ◌+◌, ◌*◌, ◌≡◌, ◌⊎◌, inl, inr, refl, ap, ◌∙◌, sym, List, ◌++◌, length, length-append, get_or,
  ok, ◌>>=◌, arith,
}
use analogconnect.Base.Words.{to_be_bytes, length-to_be_bytes}
use analogconnect.Core.Audio.Packet.{AudioPacket, encode, decode, samples_to_bytes, format_code}
use analogconnect.Core.Audio.RoundTrip.{
  IsPacket, encode-decode, encode-layout, layout, length-samples_to_bytes, format_code-cases,
  made_samples,
}

-- The code of a format and the bytes of its packets.
abbrev pub IsCode : ℕ → ℕ → Type 0
IsCode code size = ((code ≡ 1) × (size ≡ 144)) ⊎ ((code ≡ 2) × (size ≡ 264))

pub record IsEncoding (p : AudioPacket) (bytes : List ℕ) (code : ℕ) : Type 0 where
  pub encoded : encode p ≡ ok bytes
  pub decoded : decode bytes ≡ ok p
  pub coded : IsCode code (length bytes)
  pub shown : (rest : List ℕ) → get_or (bytes ++ rest) 5 0 ≡ code

length-layout :
    (p : AudioPacket) (code : ℕ)
    → length (
        layout code
          (to_be_bytes 8 p.frame.sequence)
          (to_be_bytes 8 p.capture_time_micros)
          (samples_to_bytes p.frame.samples))
      ≡ 24 + length p.frame.samples * 2
length-layout p code =
    let s = to_be_bytes 8 p.frame.sequence in
    let t = to_be_bytes 8 p.capture_time_micros in
    let b = samples_to_bytes p.frame.samples in
    omega (
      arith,
      length-append s (t ++ b),
      length-append t b,
      length-to_be_bytes 8 p.frame.sequence,
      length-to_be_bytes 8 p.capture_time_micros,
      length-samples_to_bytes p.frame.samples,
    )

coded_size :
    (p : AudioPacket) (code size : ℕ)
    → IsPacket p
    → format_code p.frame.format ≡ ok code
    → size ≡ 24 + length p.frame.samples * 2
    → IsCode code size
unfolding format_code
coded_size p code size v known e = elim v.supported [
  | inl narrow ↦ inl (
      ground
        (arith, made_samples p.frame.sequence p.frame.format p.frame.samples v.supported v.made))
  | inr wide ↦ inr (
      ground
        (arith, made_samples p.frame.sequence p.frame.format p.frame.samples v.supported v.made))
]

pub encoded_packet :
    (p : AudioPacket) → IsPacket p → (bytes : List ℕ) × (code : ℕ) × IsEncoding p bytes code
encoded_packet p v =
    let (code, known, back) = format_code-cases p.frame.format v.supported in
    let e = encode-layout p code known v.sequence_fits in
    (
      _,
      code,
      record {
        encoded = e;
        decoded = ap (λ r. r >>= decode) (sym e) ∙ encode-decode p v;
        coded = coded_size p code _ v known (length-layout p code);
        shown = λ rest. refl;
      },
    )
