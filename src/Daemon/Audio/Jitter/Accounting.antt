-- ===== src/Daemon/Audio/Jitter/Accounting.antt =====
-- The counters of `JitterBuffer` against the frames that it holds.
use analogconnect.Base.{
  refl, ◌∙◌, List, [], ◌∷◌, ok, ℕ, suc, ◌+◌, ◌≤◌, ◌<◌, ◌≡◌, refl, inl, inr, true, false, List, [],
  ◌∷◌, length, arith, Option-cases, ok,
}
use analogconnect.Base.Words.{u64_max}
use analogconnect.Base.SortedMap.{
  get?, contains_key, remove, first_key, last_key, length-insert, length-remove,
  contains_key-remove, contains_key-last, contains_key-get?,
}
use analogconnect.Core.Audio.{AudioFrame}
use analogconnect.Daemon.Audio.Jitter.{
  JitterBuffer, new, keep, make_room, count_received, step, run, JitterOp, arrives, ticks, keep,
  new, insert_frame, play, play_next, tick,
}

pub record IsAccounted (j : JitterBuffer) : Type 0 where
  pub conserved :
      j.summary.received
      ≡ j.summary.emitted
        + j.summary.duplicate
        + j.summary.late
        + j.summary.overflow
        + length j.frames
  pub depth_shown : j.summary.depth ≡ length j.frames
  pub bounded : length j.frames ≤ j.capacity

make_room-IsAccounted :
    (j : JitterBuffer) (frame : AudioFrame)
    → contains_key frame.sequence j.frames ≡ false
    → j.summary.received ≤ u64_max
    → j.summary.received
      ≡ suc (
          j.summary.emitted
          + j.summary.duplicate
          + j.summary.late
          + j.summary.overflow
          + length j.frames)
    → j.summary.depth ≡ length j.frames
    → length j.frames ≤ j.capacity
    → IsAccounted (make_room j frame)
unfolding make_room keep
make_room-IsAccounted j frame fresh h c d b = elim (Option-cases (last_key j.frames)) [
  | inl e ↦ rw (e, make_room) (omega arith)
  | inr (furthest, e) ↦
      rw (e, make_room)
        (ground (
          arith,
          length-remove furthest j.frames (contains_key-last furthest j.frames e),
          length-insert frame.sequence frame (remove furthest j.frames),
          contains_key-remove frame.sequence furthest j.frames fresh,
        ))
]

insert_frame-IsAccounted :
    (j : JitterBuffer) (frame : AudioFrame)
    → j.summary.received < u64_max
    → IsAccounted j
    → IsAccounted (insert_frame j frame)
unfolding insert_frame keep
insert_frame-IsAccounted j frame h v = ground (
  arith,
  make_room-IsAccounted (count_received j) frame,
  length-insert frame.sequence frame j.frames,
)

play-IsAccounted :
    (j : JitterBuffer) (sequence : ℕ)
    → j.summary.received ≤ u64_max
    → IsAccounted j
    → IsAccounted (play j sequence).0
unfolding play
play-IsAccounted j sequence h v = elim (Option-cases (get? sequence j.frames)) [
  | inl e ↦ rw (e, play) (ground arith)
  | inr (frame, e) ↦
      rw (e, play)
        (ground
          (arith, length-remove sequence j.frames (contains_key-get? sequence frame j.frames e)))
]

play_next-IsAccounted :
    (j : JitterBuffer) → j.summary.received ≤ u64_max → IsAccounted j → IsAccounted (play_next j).0
unfolding play_next
play_next-IsAccounted j h v = elim (Option-cases j.next_sequence) [
  | inl e ↦ rw (e, play_next) v
  | inr (sequence, e) ↦ rw (e, play_next) (play-IsAccounted j sequence h v)
]

tick-IsAccounted :
    (j : JitterBuffer) → j.summary.received ≤ u64_max → IsAccounted j → IsAccounted (tick j).0
unfolding tick
tick-IsAccounted j h v = ground (
  arith,
  play_next-IsAccounted j,
  play_next-IsAccounted (record j { next_sequence = first_key j.frames; started = true }),
)

received-make_room :
    (j : JitterBuffer) (frame : AudioFrame)
    → (make_room j frame).summary.received ≡ j.summary.received
unfolding make_room keep
received-make_room j frame = ground arith

received-insert_frame :
    (j : JitterBuffer) (frame : AudioFrame)
    → j.summary.received < u64_max
    → (insert_frame j frame).summary.received ≡ j.summary.received + 1
unfolding insert_frame keep
received-insert_frame j frame h = ground (arith, received-make_room (count_received j) frame)

received-tick : (j : JitterBuffer) → (tick j).0.summary.received ≡ j.summary.received
unfolding tick play_next play
received-tick j = ground arith

abbrev pub arrivals : List JitterOp → ℕ
arrivals [] = 0
arrivals (arrives frame ∷ ops) = suc (arrivals ops)
arrivals (ticks ∷ ops) = arrivals ops

run-IsAccounted :
    (j : JitterBuffer) (ops : List JitterOp)
    → j.summary.received + arrivals ops ≤ u64_max
    → IsAccounted j
    → IsAccounted (run j ops) × ((run j ops).summary.received ≡ j.summary.received + arrivals ops)
unfolding run step
run-IsAccounted j [] h v = (v, omega arith)
run-IsAccounted j (arrives frame ∷ ops) h v =
    let moved = received-insert_frame j frame (omega arith) in
    let (kept, counted) =
      run-IsAccounted (insert_frame j frame) ops (omega arith)
        (insert_frame-IsAccounted j frame (omega arith) v) in
    (kept, omega arith)
run-IsAccounted j (ticks ∷ ops) h v =
    let same = received-tick j in
    let (kept, counted) =
      run-IsAccounted (tick j).0 ops (omega arith) (tick-IsAccounted j (omega arith) v) in
    (kept, omega arith)

capacity-make_room :
    (j : JitterBuffer) (frame : AudioFrame) → (make_room j frame).capacity ≡ j.capacity
unfolding make_room keep
capacity-make_room j frame = ground arith

capacity-insert_frame :
    (j : JitterBuffer) (frame : AudioFrame) → (insert_frame j frame).capacity ≡ j.capacity
unfolding insert_frame keep
capacity-insert_frame j frame = ground (arith, capacity-make_room (count_received j) frame)

capacity-tick : (j : JitterBuffer) → (tick j).0.capacity ≡ j.capacity
unfolding tick play_next play
capacity-tick j = ground arith

capacity-run : (j : JitterBuffer) (ops : List JitterOp) → (run j ops).capacity ≡ j.capacity
unfolding run step
capacity-run j [] = refl
capacity-run j (arrives frame ∷ ops) =
    capacity-run (insert_frame j frame) ops ∙ capacity-insert_frame j frame
capacity-run j (ticks ∷ ops) = capacity-run (tick j).0 ops ∙ capacity-tick j

new-IsAccounted :
    (capacity target_depth : ℕ) (j : JitterBuffer)
    → new capacity target_depth ≡ ok j
    → IsAccounted j × (j.summary.received ≡ 0) × (j.capacity ≡ capacity)
unfolding new
new-IsAccounted capacity target_depth j made = ground arith

-- After any calls on a new buffer, as long as fewer than 2^64 frames have arrived, every frame that
-- arrived is in exactly one place of the statistics: emitted, duplicate, late, dropped by overflow,
-- or still in the buffer; the depth shown is the number of frames held, which never exceeds the
-- capacity the buffer was made with; and the count of received frames is that of the calls.
pub run-new-IsAccounted :
    (capacity target_depth : ℕ) (j : JitterBuffer) (ops : List JitterOp)
    → new capacity target_depth ≡ ok j
    → arrivals ops ≤ u64_max
    → IsAccounted (run j ops)
      × ((run j ops).summary.received ≡ arrivals ops)
      × ((run j ops).capacity ≡ capacity)
run-new-IsAccounted capacity target_depth j ops made h =
    let (fresh, none_yet, room) = new-IsAccounted capacity target_depth j made in
    let (kept, counted) = run-IsAccounted j ops (omega arith) fresh in
    (kept, omega arith, capacity-run j ops ∙ room)
