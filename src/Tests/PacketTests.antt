-- ===== src/Tests/PacketTests.antt =====
-- crates/analogconnect-core/src/audio.rs.
use analogconnect.Base.{List, ◌∷◌, ℕ, ◌≡◌, refl, inl, replicate, ok, ◌>>=◌, arith}
use analogconnect.Base.Text.{same}
use analogconnect.Base.Words.{from_be_bytes}
use analogconnect.Core.Audio.{AudioFrame, hfp_narrowband, new_frame}
use analogconnect.Core.Audio.Packet.{AudioPacket, encode, decode, bytes_to_samples}
use analogconnect.Core.Audio.RoundTrip.{IsPacket, encode-decode}
use analogconnect.Core.Audio.Canonical.{decode-encode}

abbrev frame : AudioFrame
frame = record { sequence = 7; format = hfp_narrowband; samples = replicate 60 513 }

abbrev packet : AudioPacket
packet = record { capture_time_micros = 1000000; frame = frame }

packet-IsPacket : IsPacket packet
unfolding new_frame
packet-IsPacket = record {
  supported = inl refl;
  made = refl;
  sequence_fits = omega arith;
  time_fits = omega arith;
  samples_fit = omega arith;
}

encode-decode_example : (encode packet >>= decode) ≡ ok packet
encode-decode_example = encode-decode packet packet-IsPacket

-- A narrowband packet of silence at sequence 5 and time 9.
abbrev wire : List ℕ
wire =
    b'A'
    ∷ b'C'
    ∷ b'A'
    ∷ b'P'
    ∷ 1
    ∷ 1
    ∷ 0
    ∷ 0
    ∷ 0
    ∷ 0
    ∷ 0
    ∷ 0
    ∷ 0
    ∷ 0
    ∷ 0
    ∷ 5
    ∷ 0
    ∷ 0
    ∷ 0
    ∷ 0
    ∷ 0
    ∷ 0
    ∷ 0
    ∷ 9
    ∷ replicate 120 0

silence : AudioPacket
silence = record {
  capture_time_micros = 9;
  frame = record { sequence = 5; format = hfp_narrowband; samples = replicate 60 0 };
}

decode-encode_example : encode silence ≡ ok wire
unfolding decode silence new_frame same bytes_to_samples from_be_bytes
decode-encode_example = decode-encode wire silence (omega arith) refl
