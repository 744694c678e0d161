-- ===== src/Tests/JitterTests.antt =====
-- `JitterBuffer` of crates/analogconnectd/src/audio.rs.
use analogconnect.Base.{ℕ, ◌≡◌, refl, List, [], ◌∷◌, none, false, map, ok, arith}
use analogconnect.Base.SortedMap.{get?, contains_key, insert, remove, first_key, last_key}
use analogconnect.Core.Audio.{AudioFrame, hfp_narrowband}
use analogconnect.Daemon.Audio.Jitter.{
  JitterBuffer, JitterOp, arrives, ticks, empty_summary, new, run, step, insert_frame, make_room,
  keep, tick, play, play_next,
}
use analogconnect.Daemon.Audio.Jitter.Accounting.{IsAccounted, run-new-IsAccounted}
use analogconnect.Daemon.Audio.Jitter.Playout.{played, InOrder, played-new-InOrder}

abbrev numbered : ℕ → AudioFrame
numbered n = record { sequence = n; format = hfp_narrowband; samples = [] }

abbrev small : JitterBuffer
small = record {
  capacity = 2;
  target_depth = 2;
  frames = [];
  next_sequence = none;
  started = false;
  summary = empty_summary;
}

-- Three frames out of order into a buffer of two, then ticks, a late frame and a gap.
abbrev calls : List JitterOp
calls =
    arrives (numbered 5)
    ∷ arrives (numbered 8)
    ∷ arrives (numbered 7)
    ∷ ticks
    ∷ arrives (numbered 4)
    ∷ ticks
    ∷ ticks
    ∷ []

small-new : new 2 2 ≡ ok small
unfolding new
small-new = refl

played-calls : map (λ frame. frame.sequence) (played small calls) ≡ 5 ∷ 7 ∷ []
unfolding played step insert_frame make_room keep tick play play_next get? contains_key insert
    remove first_key last_key
played-calls = refl

run-new-IsAccounted_example :
    IsAccounted (run small calls)
    × ((run small calls).summary.received ≡ 4)
    × ((run small calls).capacity ≡ 2)
run-new-IsAccounted_example = run-new-IsAccounted 2 2 small calls small-new (omega arith)

played-new-InOrder_example : InOrder 0 (played small calls)
played-new-InOrder_example = played-new-InOrder 2 2 small calls small-new
