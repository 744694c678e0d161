-- ===== src/Daemon/Audio/MediaBridge/Delivered.antt =====
-- The frames that `FramedPcmMediaBridge` takes in and delivers.
use analogconnect.Base.{
  ℕ, ◌≡◌, refl, sym, ap, ◌∙◌, true, Option, none, some, List, [], ◌∷◌, ok, err, ◌>>=◌, inl, inr,
  Option-cases, Result-cases, arith, Bool-cases,
}
use analogconnect.Base.SortedMap.{
  Each, Each-insert, Each-remove, Each-get?, get?, remove, last_key, first_key,
}
use analogconnect.Core.Audio.{AudioFormat, AudioFrame, new_frame, same_format}
use analogconnect.Core.Audio.Packet.{AudioPacket, encode, decode}
use analogconnect.Core.Audio.RoundTrip.{IsPacket, encode-decode}
use analogconnect.Daemon.Audio.Jitter
use analogconnect.Daemon.Audio.Jitter.{
  JitterBuffer, insert_frame, tick, play, play_next, keep, make_room, count_overflow,
  count_received,
}
use analogconnect.Daemon.Audio.MediaBridge.{
  FramedPcmMediaBridge, new_media, encode_downlink, receive_uplink, accept, tick_uplink,
}

-- A frame of some format, with its samples complete.
abbrev pub IsWhole : AudioFormat → AudioFrame → Type 0
IsWhole format frame =
    (frame.format ≡ format) × (new_frame frame.sequence format frame.samples ≡ ok frame)

abbrev Holds : AudioFormat → JitterBuffer → Type 0
Holds format j = Each (λ k frame. IsWhole format frame) j.frames

keep-Holds :
    (format : AudioFormat) (j : JitterBuffer) (frames : List (ℕ × AudioFrame)) (frame : AudioFrame)
    → IsWhole format frame
    → Each (λ k frame. IsWhole format frame) frames
    → Holds format (keep j frames frame)
unfolding keep
keep-Holds format j frames frame w h = Each-insert _ frame.sequence frame frames w h

make_room-Holds :
    (format : AudioFormat) (j : JitterBuffer) (frame : AudioFrame)
    → IsWhole format frame
    → Holds format j
    → Holds format (make_room j frame)
unfolding make_room
make_room-Holds format j frame w h = elim (Option-cases (last_key j.frames)) [
  | inl e ↦ rw (e, make_room) h
  | inr (furthest, e) ↦
      rw (e, make_room)
        (ground (
          arith,
          keep-Holds format (count_overflow j) (remove furthest j.frames) frame w
              (Each-remove _ furthest j.frames h),
        ))
]

insert_frame-Holds :
    (format : AudioFormat) (j : JitterBuffer) (frame : AudioFrame)
    → IsWhole format frame
    → Holds format j
    → Holds format (insert_frame j frame)
unfolding insert_frame
insert_frame-Holds format j frame w h = ground (
  arith,
  make_room-Holds format (count_received j) frame w h,
  keep-Holds format (count_received j) j.frames frame w h,
)

-- What comes out, if anything, is whole, and so is what is left.
abbrev Plays : AudioFormat → JitterBuffer × Option AudioFrame → Type 0
Plays format (j, none) = Holds format j
Plays format (j, some frame) = IsWhole format frame × Holds format j

play-Plays :
    (format : AudioFormat) (j : JitterBuffer) (sequence : ℕ)
    → Holds format j
    → Plays format (play j sequence)
unfolding play
play-Plays format j sequence h = elim (Option-cases (get? sequence j.frames)) [
  | inl e ↦ rw (e, play) h
  | inr (frame, e) ↦
      rw (e, play) (Each-get? _ sequence frame j.frames e h, Each-remove _ sequence j.frames h)
]

play_next-Plays :
    (format : AudioFormat) (j : JitterBuffer) → Holds format j → Plays format (play_next j)
unfolding play_next
play_next-Plays format j h =
    elim j.next_sequence
      as (λ next. Plays format (elim next [ none ↦ (j, none) | some sequence ↦ play j sequence ])) [
        | none ↦ h
        | some sequence ↦ play-Plays format j sequence h
      ]

tick-Plays : (format : AudioFormat) (j : JitterBuffer) → Holds format j → Plays format (tick j)
unfolding tick
tick-Plays format j h = ground (
  arith,
  play_next-Plays format j h,
  play_next-Plays format (record j { next_sequence = first_key j.frames; started = true }) h,
)

-- What the call does to the bridge: a packet comes, or a playout interval goes by.
pub data MediaOp : Type 0 where
  receives : List ℕ → MediaOp
  plays : MediaOp

abbrev pub step : FramedPcmMediaBridge → MediaOp → FramedPcmMediaBridge × Option AudioFrame
step b (receives packet) = ((receive_uplink b packet).0, none)
step b plays = tick_uplink b

abbrev with_frame : Option AudioFrame → List AudioFrame → List AudioFrame
with_frame none frames = frames
with_frame (some frame) frames = frame ∷ frames

abbrev pub delivered : FramedPcmMediaBridge → List MediaOp → List AudioFrame
delivered b [] = []
delivered b (op ∷ ops) = with_frame (step b op).1 (delivered (step b op).0 ops)

abbrev pub AreWhole : AudioFormat → List AudioFrame → Type 0
AreWhole format [] = Unit {0}
AreWhole format (frame ∷ frames) = IsWhole format frame × AreWhole format frames

new_frame-decode :
    (packet : List ℕ) (p : AudioPacket)
    → decode packet ≡ ok p
    → new_frame p.frame.sequence p.frame.format p.frame.samples ≡ ok p.frame
unfolding decode new_frame
new_frame-decode packet p h = ground arith

pub same_format→eq : (a b : AudioFormat) → same_format a b ≡ true → a ≡ b
same_format→eq a b h = ground arith

pub eq→same_format : (a b : AudioFormat) → a ≡ b → same_format a b ≡ true
eq→same_format a b h = ground arith

accept-Holds :
    (b : FramedPcmMediaBridge) (p : AudioPacket)
    → new_frame p.frame.sequence p.frame.format p.frame.samples ≡ ok p.frame
    → Holds b.format b.uplink
    → Holds b.format (accept b (ok p)).0.uplink × ((accept b (ok p)).0.format ≡ b.format)
accept-Holds b p made h = elim (Bool-cases (same_format p.frame.format b.format)) [
  | inl t ↦
      let same = same_format→eq p.frame.format b.format t in
      let made' =
        ap (λ format. new_frame p.frame.sequence format p.frame.samples) (sym same) ∙ made in
      rw t (insert_frame-Holds b.format b.uplink p.frame (same, made') h, refl)
  | inr f ↦ rw f (h, refl)
]

receive_uplink-Holds :
    (b : FramedPcmMediaBridge) (packet : List ℕ)
    → Holds b.format b.uplink
    → Holds b.format (receive_uplink b packet).0.uplink
      × ((receive_uplink b packet).0.format ≡ b.format)
unfolding receive_uplink
receive_uplink-Holds b packet h = elim (Result-cases (decode packet)) [
  | inl (p, e) ↦ rw e (accept-Holds b p (new_frame-decode packet p e) h)
  | inr (problem, e) ↦ rw e (h, refl)
]

AreWhole-with_frame :
    (format : AudioFormat) (r : JitterBuffer × Option AudioFrame) (frames : List AudioFrame)
    → Plays format r
    → AreWhole format frames
    → AreWhole format (with_frame r.1 frames) × Holds format r.0
AreWhole-with_frame format (j, none) frames h w = (w, h)
AreWhole-with_frame format (j, some frame) frames h w = ((h.0, w), h.1)

Plays-Holds :
    (format : AudioFormat) (r : JitterBuffer × Option AudioFrame)
    → Plays format r
    → Holds format r.0
Plays-Holds format (j, none) h = h
Plays-Holds format (j, some frame) h = h.1

delivered-AreWhole :
    (format : AudioFormat) (b : FramedPcmMediaBridge) (ops : List MediaOp)
    → b.format ≡ format
    → Holds format b.uplink
    → AreWhole format (delivered b ops)
unfolding tick_uplink
delivered-AreWhole format b [] e h = tt
delivered-AreWhole format b (receives packet ∷ ops) e h =
    let (h', e') = receive_uplink-Holds b packet (rw e h) in
    delivered-AreWhole format (receive_uplink b packet).0 ops (e' ∙ e) (rw (← e) h')
delivered-AreWhole format b (plays ∷ ops) e h =
    let p = tick-Plays format b.uplink h in
    let rest =
      delivered-AreWhole format (tick_uplink b).0 ops e (Plays-Holds format (tick b.uplink) p) in
    (AreWhole-with_frame format (tick b.uplink) (delivered (tick_uplink b).0 ops) p rest).0

-- Whatever packets arrive at a new bridge, well formed or not and of whatever format: each frame that it
-- plays out is of the bridge's own format and has just the samples that the format asks for.
pub delivered-new_media :
    (format : AudioFormat) (capacity target_depth : ℕ) (b : FramedPcmMediaBridge)
    (ops : List MediaOp)
    → new_media format capacity target_depth ≡ ok b
    → AreWhole format (delivered b ops)
unfolding new_media Jitter.new
delivered-new_media format capacity target_depth b ops made =
    let e : b.format ≡ format = ground arith in
    let fresh : b.uplink.frames ≡ [] = ground arith in
    delivered-AreWhole format b ops e (rw fresh tt)

-- A packet that one bridge makes of a frame is accepted by another of the same format, which then holds
-- what its jitter buffer makes of that very frame.
pub receive_uplink-encode_downlink :
    (a b : FramedPcmMediaBridge) (frame : AudioFrame) (capture_time_micros : ℕ)
    → a.format ≡ frame.format
    → b.format ≡ frame.format
    → IsPacket (record { capture_time_micros = capture_time_micros; frame = frame })
    → (packet : List ℕ) × (encode_downlink a frame capture_time_micros ≡ ok packet)
      × (receive_uplink b packet ≡ (record b { uplink = insert_frame b.uplink frame }, ok tt))
unfolding encode_downlink receive_uplink
receive_uplink-encode_downlink a b frame time ea eb v =
    let p : AudioPacket = record { capture_time_micros = time; frame = frame } in
    let round = encode-decode p v in
    let same_a = eq→same_format frame.format a.format (sym ea) in
    let same_b = eq→same_format frame.format b.format (sym eb) in
    elim (Result-cases (encode p)) [
      | inl (packet, e) ↦
          let decoded : decode packet ≡ ok p = ap (λ r. r >>= decode) (sym e) ∙ round in
          (packet, rw (same_a, e) refl, ap (accept b) decoded ∙ rw same_b refl)
      | inr (problem, e) ↦
          let failed : err problem ≡ ok p = ap (λ r. r >>= decode) (sym e) ∙ round in
          absurd (ground arith)
    ]
