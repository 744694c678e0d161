-- ===== src/Daemon/Audio/Pcm.antt =====
-- `PcmFrameReader` and `PcmFrameWriter`: frames as raw little-endian PCM.
-- A reader is what its reads deliver: a chunk, of which a read takes as much as it has room for, an
-- interruption, or a failure; an empty chunk, or nothing more, is the end of the stream. A writer
-- is the bytes it has taken in and its room: how many more it takes before it fails, if it ever does.
pub mod RoundTrip
use analogconnect.Base.{
  ℕ, zero, suc, ◌+◌, ◌-◌, ◌*◌, Bool, true, false, not, ◌||◌, Option, none, some, List, [], ◌∷◌,
  ◌++◌, Result, ok, err, ◌>>=◌, ◌>>◌, ensure, or_err, length, take, drop, leb, ◌==◌, if◌then◌else◌,
}
use analogconnect.Base.Words.{u64_max}
use analogconnect.Core.Audio.{
  AudioFormat, AudioFrame, hfp_narrowband, hfp_wideband, same_format, new_frame,
}
use analogconnect.Core.Audio.Packet.{samples_to_bytes, bytes_to_samples}

pub data PcmStreamError : Type 0 where
  unsupported_format truncated_frame read_failed write_failed format_mismatch sequence_exhausted
        invalid_frame :
      PcmStreamError

pub data ReadEvent : Type 0 where
  chunk : List ℕ → ReadEvent
  interrupted read_error : ReadEvent

unfoldable pub validate_hfp_format : AudioFormat → Result (Unit {0}) PcmStreamError
validate_hfp_format format =
    ensure (same_format format hfp_narrowband || same_format format hfp_wideband) unsupported_format

pub record PcmFrameReader : Type 0 where
  pub reader : List ReadEvent
  pub format : AudioFormat
  pub next_sequence : ℕ

unfoldable pub new_reader : List ReadEvent → AudioFormat → Result PcmFrameReader PcmStreamError
unfolding validate_hfp_format
new_reader reader format = do
  validate_hfp_format format
  ok (record { reader = reader; format = format; next_sequence = 0 })

-- The end of the stream is `none` between frames and an error within one.
abbrev pub at_end : List ℕ → Result (Option (List ℕ)) PcmStreamError
at_end [] = ok none
at_end (byte ∷ bytes) = err truncated_frame

-- The loop over `read`, by the room that is left and the bytes that are filled in.
unfoldable pub fill :
    ℕ → List ℕ → List ReadEvent → List ReadEvent × Result (Option (List ℕ)) PcmStreamError
fill zero filled events = (events, ok (some filled))
fill (suc room) filled [] = ([], at_end filled)
fill (suc room) filled (interrupted ∷ events) = fill (suc room) filled events
fill (suc room) filled (read_error ∷ events) = (events, err read_failed)
fill (suc room) filled (chunk [] ∷ events) = (events, at_end filled)
fill (suc room) filled (chunk (byte ∷ bytes) ∷ events) =
    let rest = fill (room - length bytes) (filled ++ (byte ∷ bytes)) events in
    if leb (length bytes) room
    then rest
    else (chunk (drop room bytes) ∷ events, ok (some (filled ++ (byte ∷ take room bytes))))

-- What `read_frame` makes of a full buffer.
unfoldable pub finish :
    PcmFrameReader → List ℕ → PcmFrameReader × Result (Option AudioFrame) PcmStreamError
finish r bytes =
    let sequence = r.next_sequence in
    if leb u64_max sequence then (r, err sequence_exhausted) else (
      record r { next_sequence = sequence + 1 },
      (or_err (new_frame sequence r.format (bytes_to_samples bytes)) invalid_frame >>= λ frame.
          ok (some frame)),
    )

abbrev pub framed :
    PcmFrameReader
    → List ReadEvent × Result (Option (List ℕ)) PcmStreamError
    → PcmFrameReader × Result (Option AudioFrame) PcmStreamError
framed r (events, err e) = (record r { reader = events }, err e)
framed r (events, ok none) = (record r { reader = events }, ok none)
framed r (events, ok (some bytes)) = finish (record r { reader = events }) bytes

unfoldable pub read_frame :
    PcmFrameReader → PcmFrameReader × Result (Option AudioFrame) PcmStreamError
read_frame r = framed r (fill (r.format.samples_per_channel * 2) [] r.reader)

pub record PcmFrameWriter : Type 0 where
  pub written : List ℕ
  pub room : Option ℕ
  pub format : AudioFormat

unfoldable pub new_writer : List ℕ → Option ℕ → AudioFormat → Result PcmFrameWriter PcmStreamError
unfolding validate_hfp_format
new_writer written room format = do
  validate_hfp_format format
  ok (record { written = written; room = room; format = format })

-- `write_all`, to a writer with the room given: if it fails it has taken a part of the bytes.
abbrev pub write_all :
    PcmFrameWriter → List ℕ → Option ℕ → PcmFrameWriter × Result (Unit {0}) PcmStreamError
write_all w bytes none = (record w { written = w.written ++ bytes }, ok tt)
write_all w bytes (some room) =
    if leb (length bytes) room
    then (record w { written = w.written ++ bytes; room = some (room - length bytes) }, ok tt)
    else (record w { written = w.written ++ take room bytes; room = some 0 }, err write_failed)

unfoldable pub write_frame :
    PcmFrameWriter → AudioFrame → PcmFrameWriter × Result (Unit {0}) PcmStreamError
write_frame w frame =
    if not (same_format frame.format w.format)
    then (w, err format_mismatch)
    else write_all w (samples_to_bytes frame.samples) w.room
