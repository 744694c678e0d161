-- ===== src/Daemon/Audio/Jitter.antt =====
-- `JitterBuffer`: reordering and pacing of the frames that arrive from the client.
pub mod Accounting
pub mod Playout
use analogconnect.Base.{
  ℕ, suc, ◌+◌, Bool, true, false, not, ◌||◌, Option, none, some, List, [], ◌∷◌, Result, ok, err,
  length, ltb, leb, ◌==◌, if◌then◌else◌,
}
use analogconnect.Base.Words.{u64_max, saturating_add}
use analogconnect.Base.SortedMap.{get?, contains_key, insert, remove, first_key, last_key}
use analogconnect.Core.Audio.{AudioFrame}

pub record JitterBufferSummary : Type 0 where
  pub depth : ℕ
  pub received : ℕ
  pub emitted : ℕ
  pub duplicate : ℕ
  pub late : ℕ
  pub missing : ℕ
  pub overflow : ℕ

pub record JitterBuffer : Type 0 where
  pub capacity : ℕ
  pub target_depth : ℕ
  pub frames : List (ℕ × AudioFrame)
  pub next_sequence : Option ℕ
  pub started : Bool
  pub summary : JitterBufferSummary

pub data JitterBufferError : Type 0 where
  invalid_capacity : JitterBufferError

abbrev pub empty_summary : JitterBufferSummary
empty_summary = record {
  depth = 0;
  received = 0;
  emitted = 0;
  duplicate = 0;
  late = 0;
  missing = 0;
  overflow = 0;
}

unfoldable pub new : ℕ → ℕ → Result JitterBuffer JitterBufferError
new capacity target_depth =
    if capacity == 0 || target_depth == 0 || ltb capacity target_depth
    then err invalid_capacity
    else ok (record {
      capacity = capacity;
      target_depth = target_depth;
      frames = [];
      next_sequence = none;
      started = false;
      summary = empty_summary;
    })

-- `next_sequence.is_some_and(|next_sequence| sequence < next_sequence)`.
abbrev pub is_late : ℕ → Option ℕ → Bool
is_late sequence none = false
is_late sequence (some next) = ltb sequence next

-- The insertion into the map, and the depth that is reported after it.
unfoldable pub keep : JitterBuffer → List (ℕ × AudioFrame) → AudioFrame → JitterBuffer
keep j frames frame =
    let kept = insert frame.sequence frame frames in
    record j { frames = kept; summary = record (j.summary) { depth = length kept } }

abbrev pub count_overflow : JitterBuffer → JitterBuffer
count_overflow j = record j {
  summary = record (j.summary) { overflow = saturating_add j.summary.overflow 1 };
}

-- A full buffer drops the furthest frame for a nearer one. Only a buffer of capacity 0 has no
-- furthest frame when it is full; the source would panic there, and `new` rules it out.
unfoldable pub make_room : JitterBuffer → AudioFrame → JitterBuffer
make_room j frame =
    let full = count_overflow j in
    elim (last_key j.frames) [
      | none ↦ full
      | some furthest ↦
          if leb furthest frame.sequence then full else keep full (remove furthest j.frames) frame
    ]

abbrev pub count_received : JitterBuffer → JitterBuffer
count_received j = record j {
  summary = record (j.summary) { received = saturating_add j.summary.received 1 };
}

-- `JitterBuffer::insert`.
unfoldable pub insert_frame : JitterBuffer → AudioFrame → JitterBuffer
insert_frame j₀ frame =
    let j = count_received j₀ in
    let s = j.summary in
    if is_late frame.sequence j.next_sequence
    then record j { summary = record s { late = saturating_add s.late 1 } }
    else if contains_key frame.sequence j.frames
    then record j { summary = record s { duplicate = saturating_add s.duplicate 1 } }
    else if length j.frames == j.capacity
    then make_room j frame
    else keep j j.frames frame

-- `checked_add(1)` on a `u64`.
abbrev pub checked_suc : ℕ → Option ℕ
checked_suc n = if leb u64_max n then none else some (n + 1)

-- One playout interval at a known position.
unfoldable pub play : JitterBuffer → ℕ → JitterBuffer × Option AudioFrame
play j₀ sequence =
    let j = record j₀ { next_sequence = checked_suc sequence } in
    elim (get? sequence j.frames) [
      | none ↦ (
        record j { summary = record (j.summary) { missing = saturating_add j.summary.missing 1 } },
        none,
      )
      | some frame ↦
          let rest = remove sequence j.frames in
          (
            record j {
              frames = rest;
              summary = record (j.summary) {
                emitted = saturating_add j.summary.emitted 1;
                depth = length rest;
              };
            },
            some frame,
          )
    ]

unfoldable pub play_next : JitterBuffer → JitterBuffer × Option AudioFrame
play_next j = elim j.next_sequence [ none ↦ (j, none) | some sequence ↦ play j sequence ]

unfoldable pub tick : JitterBuffer → JitterBuffer × Option AudioFrame
tick j =
    if j.started
    then play_next j
    else if ltb (length j.frames) j.target_depth
    then (j, none)
    else play_next (record j { next_sequence = first_key j.frames; started = true })

-- The calls that the media bridge makes.
pub data JitterOp : Type 0 where
  arrives : AudioFrame → JitterOp
  ticks : JitterOp

-- The buffer after a list of calls, and the frames that it has played out.
unfoldable pub step : JitterBuffer → JitterOp → JitterBuffer × Option AudioFrame
step j (arrives frame) = (insert_frame j frame, none)
step j ticks = tick j

unfoldable pub run : JitterBuffer → List JitterOp → JitterBuffer
run j [] = j
run j (op ∷ ops) = run (step j op).0 ops
