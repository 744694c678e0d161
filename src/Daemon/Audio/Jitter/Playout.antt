-- ===== src/Daemon/Audio/Jitter/Playout.antt =====
-- The frames that `JitterBuffer` plays out, and where its playout stands.
use analogconnect.Base.{
  ℕ, suc, ltb, ◌≤◌, ◌≡◌, refl, ◌⊎◌, inl, inr, true, false, Option, none, some, List, [], ◌∷◌,
  length, arith, Option-cases, ok, Bool-cases,
}
use analogconnect.Base.SortedMap.{
  Ascending, Each, get?, remove, first_key, last_key, insert-Ascending, remove-Ascending,
  remove_least, missing_least, Ascending-mono, first_key-Ascending, Each-insert, Each-remove,
  Each-get?,
}
use analogconnect.Core.Audio.{AudioFrame}
use analogconnect.Daemon.Audio.Jitter.{
  JitterBuffer, JitterOp, arrives, ticks, new, keep, make_room, count_received, count_overflow,
  insert_frame, play, play_next, tick, step, checked_suc,
}

abbrev Keyed : List (ℕ × AudioFrame) → Type 0
Keyed = Each (λ k frame. frame.sequence ≡ k)

-- Where playout stands: not begun, or next at `lo`, with no frame below `lo` in the buffer.
record IsPlaced (lo : ℕ) (j : JitterBuffer) : Type 0 where
  keyed : Keyed j.frames
  ascending : Ascending lo j.frames
  position :
      (j.started ≡ false) × (j.next_sequence ≡ none) × (lo ≡ 0)
      ⊎ (j.started ≡ true) × (j.next_sequence ≡ some lo)

-- The last possible sequence number has been passed.
abbrev IsFinished : JitterBuffer → Type 0
IsFinished j = (j.started ≡ true) × (j.next_sequence ≡ none)

keep-IsPlaced :
    (lo : ℕ) (j : JitterBuffer) (frames : List (ℕ × AudioFrame)) (frame : AudioFrame)
    → lo ≤ frame.sequence
    → Keyed frames
    → Ascending lo frames
    → IsPlaced lo j
    → IsPlaced lo (keep j frames frame)
unfolding keep
keep-IsPlaced lo j frames frame h k a v = record {
  keyed = Each-insert _ frame.sequence frame frames refl k;
  ascending = insert-Ascending frame.sequence frame lo frames h a;
  position = v.position;
}

make_room-IsPlaced :
    (lo : ℕ) (j : JitterBuffer) (frame : AudioFrame)
    → lo ≤ frame.sequence
    → IsPlaced lo j
    → IsPlaced lo (make_room j frame)
unfolding make_room
make_room-IsPlaced lo j frame h v = elim (Option-cases (last_key j.frames)) [
  | inl e ↦
      rw (e, make_room) (record { keyed = v.keyed; ascending = v.ascending; position = v.position })
  | inr (furthest, e) ↦
      rw (e, make_room)
        (ground (
          arith,
          keep-IsPlaced lo (count_overflow j) (remove furthest j.frames) frame h
              (Each-remove _ furthest j.frames v.keyed)
              (remove-Ascending furthest lo j.frames v.ascending),
        ))
]

insert_frame-IsPlaced :
    (lo : ℕ) (j : JitterBuffer) (frame : AudioFrame)
    → IsPlaced lo j
    → IsPlaced lo (insert_frame j frame)
unfolding insert_frame
insert_frame-IsPlaced lo j frame v = ground (
  arith,
  make_room-IsPlaced lo (count_received j) frame,
  keep-IsPlaced lo (count_received j) j.frames frame,
)

-- Where playout stands after a tick that was at `lo`, by the frame that came out.
abbrev After : ℕ → JitterBuffer × Option AudioFrame → Type 0
After lo (j, none) = ((hi : ℕ) × (lo ≤ hi) × IsPlaced hi j) ⊎ IsFinished j
After lo (j, some frame) = (lo ≤ frame.sequence) × (IsPlaced (suc frame.sequence) j ⊎ IsFinished j)

checked_suc-cases : (n : ℕ) → (checked_suc n ≡ none) ⊎ (checked_suc n ≡ some (suc n))
checked_suc-cases n = ground arith

play-After :
    (lo : ℕ) (j : JitterBuffer)
    → Keyed j.frames
    → Ascending lo j.frames
    → j.started ≡ true
    → After lo (play j lo)
unfolding play
play-After lo j keyed a s = elim (Option-cases (get? lo j.frames)) [
  | inl e ↦
      rw (e, play)
        (elim (checked_suc-cases lo) [
          | inl top ↦ inr (s, top)
          | inr next ↦ inl (
            suc lo,
            omega arith,
            record {
              keyed = keyed;
              ascending = missing_least lo j.frames e a;
              position = inr (s, next);
            },
          )
        ])
  | inr (frame, e) ↦
      rw (e, play, Each-get? _ lo frame j.frames e keyed)
        (
          omega arith,
          (elim (checked_suc-cases lo) [
            | inl top ↦ inr (s, top)
            | inr next ↦ inl (record {
              keyed = Each-remove _ lo j.frames keyed;
              ascending = remove_least lo j.frames a;
              position = inr (s, next);
            })
          ]),
        )
]

play_next-none : (j : JitterBuffer) → j.next_sequence ≡ none → play_next j ≡ (j, none)
unfolding play_next
play_next-none j n = ground arith

play_next-After :
    (lo : ℕ) (j : JitterBuffer)
    → Keyed j.frames
    → Ascending lo j.frames
    → j.started ≡ true
    → j.next_sequence ≡ some lo
    → After lo (play_next j)
unfolding play_next
play_next-After lo j keyed a s n = rw (n, play_next) (play-After lo j keyed a s)

After-mono : (lo hi : ℕ) (r : JitterBuffer × Option AudioFrame) → lo ≤ hi → After hi r → After lo r
After-mono lo hi (j, none) h (inl (k, above, v)) = inl (k, omega arith, v)
After-mono lo hi (j, none) h (inr f) = inr f
After-mono lo hi (j, some frame) h (above, v) = (omega arith, v)

abbrev begin : JitterBuffer → JitterBuffer
begin j = record j { next_sequence = first_key j.frames; started = true }

tick_started : (j : JitterBuffer) → j.started ≡ true → tick j ≡ play_next j
unfolding tick
tick_started j s = ground arith

tick_waits :
    (j : JitterBuffer)
    → j.started ≡ false
    → ltb (length j.frames) j.target_depth ≡ true
    → tick j ≡ (j, none)
unfolding tick
tick_waits j s h = ground arith

tick_begins :
    (j : JitterBuffer)
    → j.started ≡ false
    → ltb (length j.frames) j.target_depth ≡ false
    → tick j ≡ play_next (begin j)
unfolding tick
tick_begins j s h = ground arith

begin-After :
    (j : JitterBuffer) → Keyed j.frames → Ascending 0 j.frames → After 0 (play_next (begin j))
begin-After j keyed a = elim (Option-cases (first_key j.frames)) [
  | inl e ↦ rw (play_next-none (begin j) e) (inr (refl, e))
  | inr (k, e) ↦
      After-mono 0 k (play_next (begin j)) (omega arith)
        (play_next-After k (begin j) keyed (first_key-Ascending 0 k j.frames e a) refl e)
]

tick-After : (lo : ℕ) (j : JitterBuffer) → IsPlaced lo j → After lo (tick j)
tick-After lo j v = elim v.position [
  | inl (s, n, z) ↦ elim (Bool-cases (ltb (length j.frames) j.target_depth)) [
    | inl few ↦ rw (tick_waits j s few) (inl (lo, omega arith, v))
    | inr enough ↦
        rw (z, tick_begins j s enough)
          (begin-After j v.keyed (Ascending-mono 0 lo j.frames (omega arith) v.ascending))
  ]
  | inr (s, n) ↦ rw (tick_started j s) (play_next-After lo j v.keyed v.ascending s n)
]

-- The frames that a list of calls plays out, in order.
prepend : Option AudioFrame → List AudioFrame → List AudioFrame
prepend none frames = frames
prepend (some frame) frames = frame ∷ frames

unfoldable pub played : JitterBuffer → List JitterOp → List AudioFrame
unfolding prepend
played j [] = []
played j (op ∷ ops) = let (j', out) = step j op in prepend out (played j' ops)

-- The sequence numbers ascend strictly, from `lo` on.
abbrev pub InOrder : ℕ → List AudioFrame → Type 0
InOrder lo [] = Unit {0}
InOrder lo (frame ∷ frames) = (lo ≤ frame.sequence) × InOrder (suc frame.sequence) frames

InOrder-mono :
    (lo hi : ℕ) (frames : List AudioFrame) → lo ≤ hi → InOrder hi frames → InOrder lo frames
InOrder-mono lo hi [] h o = tt
InOrder-mono lo hi (frame ∷ frames) h o = (omega arith, o.1)

IsFinished-step :
    (j : JitterBuffer) (op : JitterOp)
    → IsFinished j
    → IsFinished (step j op).0 × ((step j op).1 ≡ none)
unfolding step insert_frame make_room keep tick play_next
IsFinished-step j (arrives frame) f = ground arith
IsFinished-step j ticks f = ground arith

played_finished : (j : JitterBuffer) (ops : List JitterOp) → IsFinished j → played j ops ≡ []
unfolding played
played_finished j [] f = refl
played_finished j (op ∷ ops) f =
    let (f', out) = IsFinished-step j op f in rw out (played_finished (step j op).0 ops f')

played_rest :
    (lo : ℕ) (j : JitterBuffer) (ops : List JitterOp)
    → ((k : ℕ) → IsPlaced k j → InOrder k (played j ops))
    → IsPlaced lo j ⊎ IsFinished j
    → InOrder lo (played j ops)
played_rest lo j ops ih (inl v) = ih lo v
played_rest lo j ops ih (inr f) = rw (played_finished j ops f) tt

After-tick :
    (lo : ℕ) (ops : List JitterOp) (r : JitterBuffer × Option AudioFrame)
    → ((j : JitterBuffer) (k : ℕ) → IsPlaced k j → InOrder k (played j ops))
    → After lo r
    → InOrder lo (prepend r.1 (played r.0 ops))
unfolding prepend
After-tick lo ops (j, none) ih (inl (k, above, v)) = InOrder-mono lo k _ above (ih j k v)
After-tick lo ops (j, none) ih (inr f) = rw (played_finished j ops f) tt
After-tick lo ops (j, some frame) ih (above, v) =
    (above, played_rest (suc frame.sequence) j ops (ih j) v)

played-InOrder :
    (ops : List JitterOp) (j : JitterBuffer) (lo : ℕ) → IsPlaced lo j → InOrder lo (played j ops)
unfolding played step
played-InOrder [] j lo v = tt
played-InOrder (arrives frame ∷ ops) j lo v =
    played-InOrder ops (insert_frame j frame) lo (insert_frame-IsPlaced lo j frame v)
played-InOrder (ticks ∷ ops) j lo v =
    After-tick lo ops (tick j) (played-InOrder ops) (tick-After lo j v)

new-IsPlaced :
    (capacity target_depth : ℕ) (j : JitterBuffer) → new capacity target_depth ≡ ok j → IsPlaced 0 j
unfolding new
new-IsPlaced capacity target_depth j made = ground arith

-- Whatever frames arrive at a new buffer, in whatever order and however often, those that its ticks
-- play out have strictly ascending sequence numbers: none is repeated and none comes after a later one.
pub played-new-InOrder :
    (capacity target_depth : ℕ) (j : JitterBuffer) (ops : List JitterOp)
    → new capacity target_depth ≡ ok j
    → InOrder 0 (played j ops)
played-new-InOrder capacity target_depth j ops made =
    played-InOrder ops j 0 (new-IsPlaced capacity target_depth j made)
