-- ===== src/Daemon/Audio/Pcm/RoundTrip.antt =====
-- `PcmFrameWriter` followed by `PcmFrameReader`, for reads of any sizes.
use analogconnect.Base.{
  ℕ, zero, suc, ◌+◌, ◌-◌, ◌*◌, ◌≤◌, ◌<◌, ◌≡◌, refl, sym, ap, ◌∙◌, false, Option, Result, none, some,
  List, [], ◌∷◌, ◌++◌, append-nil, append_assoc, ok, length, length-append, take, drop, length-drop,
  take-append, drop-append, arith, Bool-cases, inl, inr, leb, take-append-ge, drop-append-ge,
  take-append-le, drop-append-le,
}
use analogconnect.Base.Words.{u64_max}
use analogconnect.Core.Audio.{AudioFormat, AudioFrame, new_frame}
use analogconnect.Core.Audio.Packet.{samples_to_bytes}
use analogconnect.Core.Audio.RoundTrip.{
  AreSamples, bytes_to_samples-samples_to_bytes, length-samples_to_bytes,
}
use analogconnect.Daemon.Audio.Pcm.{
  ReadEvent, chunk, interrupted, read_error, PcmFrameReader, PcmFrameWriter, fill, finish,
  read_frame, framed, write_frame, validate_hfp_format, new_reader, new_writer, PcmStreamError,
}

-- The bytes that the reads deliver in all.
abbrev pub content : List ReadEvent → List ℕ
content [] = []
content (chunk bytes ∷ events) = bytes ++ content events
content (interrupted ∷ events) = content events
content (read_error ∷ events) = content events

-- No read fails or reports the end of the stream early.
abbrev pub IsFlowing : List ReadEvent → Type 0
IsFlowing [] = Unit {0}
IsFlowing (chunk bytes ∷ events) = (0 < length bytes) × IsFlowing events
IsFlowing (interrupted ∷ events) = IsFlowing events
IsFlowing (read_error ∷ events) = 1 ≤ 0

-- The loop takes the bytes that it has room for, and leaves the others to be read.
fill-IsFlowing :
    (room : ℕ) (filled : List ℕ) (events : List ReadEvent)
    → IsFlowing events
    → room ≤ length (content events)
    → (rest : List ReadEvent) × (fill room filled events
        ≡ (rest, ok (some (filled ++ take room (content events)))))
      × (content rest ≡ drop room (content events))
      × IsFlowing rest
unfolding fill
fill-IsFlowing zero filled events flows enough = (events, rw (append-nil filled) refl, refl, flows)
fill-IsFlowing (suc room) filled [] flows enough = absurd (omega arith)
fill-IsFlowing (suc room) filled (interrupted ∷ events) flows enough =
    fill-IsFlowing (suc room) filled events flows enough
fill-IsFlowing (suc room) filled (read_error ∷ events) flows enough = absurd (omega arith)
fill-IsFlowing (suc room) filled (chunk [] ∷ events) flows enough = absurd (omega (arith, flows.0))
fill-IsFlowing (suc room) filled (chunk (byte ∷ bytes) ∷ events) flows enough =
    elim (Bool-cases (leb (length bytes) room)) [
      | inl fits ↦
          let small : length bytes ≤ room = ground arith in
          let (rest, filled_up, left, flows') =
            fill-IsFlowing (room - length bytes) (filled ++ (byte ∷ bytes)) events flows.1
              (omega (arith, length-append bytes (content events))) in
          (
            rest,
            rw (fits, take-append-ge room bytes (content events) small)
                (filled_up
                  ∙ ap (λ xs. (rest, ok (some xs))) (append_assoc filled (byte ∷ bytes) _)),
            left ∙ sym (drop-append-ge room bytes (content events) small),
            flows',
          )
      | inr longer ↦
          let big : room < length bytes = ground arith in
          (
            chunk (drop room bytes) ∷ events,
            rw (longer, take-append-le room bytes (content events) (omega arith)) refl,
            sym (drop-append-le room bytes (content events) (omega arith)),
            (omega (arith, length-drop room bytes), flows.1),
          )
    ]

-- A frame that `AudioFrame::new` makes of a format that the stream may have.
pub record IsFrame (format : AudioFormat) (frame : AudioFrame) : Type 0 where
  pub same : frame.format ≡ format
  pub sized : length frame.samples ≡ format.samples_per_channel
  pub samples_fit : AreSamples frame.samples

abbrev numbered : ℕ → AudioFrame → AudioFrame
numbered sequence frame = record frame { sequence = sequence }

new_frame-IsFrame :
    (format : AudioFormat) (sequence : ℕ) (frame : AudioFrame)
    → validate_hfp_format format ≡ ok tt
    → IsFrame format frame
    → new_frame sequence format frame.samples ≡ ok (numbered sequence frame)
unfolding validate_hfp_format new_frame
new_frame-IsFrame format sequence frame hfp v = ground arith

finish-frame :
    (r : PcmFrameReader) (frame : AudioFrame)
    → validate_hfp_format r.format ≡ ok tt
    → IsFrame r.format frame
    → r.next_sequence < u64_max
    → finish r (samples_to_bytes frame.samples) ≡ (
      record r { next_sequence = r.next_sequence + 1 },
      ok (some (numbered r.next_sequence frame)),
    )
unfolding finish
finish-frame r frame hfp v few =
    let early : leb u64_max r.next_sequence ≡ false = ground arith in
    rw
      (
        early,
        bytes_to_samples-samples_to_bytes frame.samples v.samples_fit,
        new_frame-IsFrame r.format r.next_sequence frame hfp v,
      )
      refl

read_frame-full :
    (r : PcmFrameReader) (events : List ReadEvent) (bytes : List ℕ)
    → fill (r.format.samples_per_channel * 2) [] r.reader ≡ (events, ok (some bytes))
    → read_frame r ≡ finish (record r { reader = events }) bytes
unfolding read_frame
read_frame-full r events bytes e = ap (framed r) e

read_frame-IsFlowing :
    (r : PcmFrameReader) (frame : AudioFrame) (rest : List ℕ)
    → validate_hfp_format r.format ≡ ok tt
    → IsFrame r.format frame
    → r.next_sequence < u64_max
    → IsFlowing r.reader
    → content r.reader ≡ samples_to_bytes frame.samples ++ rest
    → (events : List ReadEvent) × (read_frame r ≡ (
      record r { reader = events; next_sequence = r.next_sequence + 1 },
      ok (some (numbered r.next_sequence frame)),
    ))
      × (content events ≡ rest)
      × IsFlowing events
read_frame-IsFlowing r frame rest hfp v few flows e =
    let bytes = samples_to_bytes frame.samples in
    let size : length bytes ≡ r.format.samples_per_channel * 2 =
      omega (arith, length-samples_to_bytes frame.samples, v.sized) in
    let enough : r.format.samples_per_channel * 2 ≤ length (content r.reader) =
      omega (arith, ap length e, length-append bytes rest) in
    let (events, filled, left, flows') =
      fill-IsFlowing (r.format.samples_per_channel * 2) [] r.reader flows enough in
    let taken =
      ap (take (r.format.samples_per_channel * 2)) e
      ∙ take-append (r.format.samples_per_channel * 2) bytes rest size in
    let dropped =
      ap (drop (r.format.samples_per_channel * 2)) e
      ∙ drop-append (r.format.samples_per_channel * 2) bytes rest size in
    (
      events,
      read_frame-full r events bytes (filled ∙ ap (λ xs. (events, ok (some xs))) taken)
          ∙ finish-frame (record r { reader = events }) frame hfp v few,
      left ∙ dropped,
      flows',
    )

-- All the frames written to a writer that does not fail, and what it has written then.
abbrev pub write_frames : PcmFrameWriter → List AudioFrame → PcmFrameWriter
write_frames w [] = w
write_frames w (frame ∷ frames) = write_frames (write_frame w frame).0 frames

-- The results of reading frames, and the reader left.
abbrev pub read_frames : ℕ → PcmFrameReader → List (Result (Option AudioFrame) PcmStreamError)
read_frames zero r = []
read_frames (suc n) r = let (r', read) = read_frame r in read ∷ read_frames n r'

-- Frames as the reader numbers them.
abbrev pub read_from : ℕ → List AudioFrame → List (Result (Option AudioFrame) PcmStreamError)
read_from sequence [] = []
read_from sequence (frame ∷ frames) =
    ok (some (record frame { sequence = sequence })) ∷ read_from (sequence + 1) frames

abbrev pub AreFrames : AudioFormat → List AudioFrame → Type 0
AreFrames format [] = Unit {0}
AreFrames format (frame ∷ frames) = IsFrame format frame × AreFrames format frames

abbrev pcm_of : List AudioFrame → List ℕ
pcm_of [] = []
pcm_of (frame ∷ frames) = samples_to_bytes frame.samples ++ pcm_of frames

written_frame :
    (w : PcmFrameWriter) (frame : AudioFrame)
    → IsFrame w.format frame
    → w.room ≡ none
    → write_frame w frame
      ≡ (record w { written = w.written ++ samples_to_bytes frame.samples }, ok tt)
unfolding write_frame
written_frame w frame v free = ground (arith, v.same)

written-write_frames :
    (w : PcmFrameWriter) (frames : List AudioFrame)
    → AreFrames w.format frames
    → w.room ≡ none
    → (write_frames w frames).written ≡ w.written ++ pcm_of frames
written-write_frames w [] v free = sym (append-nil w.written)
written-write_frames w (frame ∷ frames) v free =
    ap (λ w. (write_frames w frames).written) (ap (λ done. done.0) (written_frame w frame v.0 free))
    ∙ written-write_frames (record w { written = w.written ++ samples_to_bytes frame.samples })
        frames v.1 free
    ∙ append_assoc w.written (samples_to_bytes frame.samples) (pcm_of frames)

read_frames-IsFlowing :
    (r : PcmFrameReader) (frames : List AudioFrame)
    → validate_hfp_format r.format ≡ ok tt
    → AreFrames r.format frames
    → r.next_sequence + length frames ≤ u64_max
    → IsFlowing r.reader
    → content r.reader ≡ pcm_of frames
    → read_frames (length frames) r ≡ read_from r.next_sequence frames
read_frames-IsFlowing r [] hfp v few flows e = refl
read_frames-IsFlowing r (frame ∷ frames) hfp v few flows e =
    let (events, read, left, flows') =
      read_frame-IsFlowing r frame (pcm_of frames) hfp v.0 (omega arith) flows e in
    rw read (
      ap (◌∷◌ (ok (some (numbered r.next_sequence frame)))) (
        read_frames-IsFlowing (record r { reader = events; next_sequence = r.next_sequence + 1 })
          frames hfp v.1 (omega arith) flows' left))

-- Frames of one HFP format are written to a new writer that does not fail, and its bytes are read back by a new reader of that format,
-- cut up and interrupted in any way: it delivers the frames, with sequence numbers from 0 on.
pub read_frames-write_frames :
    (format : AudioFormat) (frames : List AudioFrame) (events : List ReadEvent) (w : PcmFrameWriter)
    (r : PcmFrameReader)
    → AreFrames format frames
    → length frames ≤ u64_max
    → new_writer [] none format ≡ ok w
    → new_reader events format ≡ ok r
    → IsFlowing events
    → content events ≡ (write_frames w frames).written
    → read_frames (length frames) r ≡ read_from 0 frames
unfolding new_reader new_writer
read_frames-write_frames format frames events w r v few hw hr flows e =
    let hfp : validate_hfp_format format ≡ ok tt = ground arith in
    let made : w ≡ record { written = []; room = none; format = format } = ground arith in
    let reading : r ≡ record { reader = events; format = format; next_sequence = 0 } =
      ground arith in
    let all =
      e
      ∙ ap (λ w. (write_frames w frames).written) made
      ∙ written-write_frames (record { written = []; room = none; format = format }) frames v
          refl in
    rw reading (
      read_frames-IsFlowing (record { reader = events; format = format; next_sequence = 0 }) frames
        hfp v (omega (arith, few)) flows all)
