-- ===== src/Daemon/Audio/Queue/Accounting.antt =====
-- The counters of `BoundedAudioQueue` against the frames that it holds.
use analogconnect.Base.{
  ℕ, suc, ◌+◌, ◌≤◌, ◌<◌, ◌≡◌, refl, List, [], ◌∷◌, length, length-append, length-drop, ok, arith,
}
use analogconnect.Base.Words.{u64_max}
use analogconnect.Core.Audio.{AudioFrame}
use analogconnect.Daemon.Audio.Queue.{
  BoundedAudioQueue, QueuedFrame, QueueOp, pushes, pops, resets, new, push, drop_oldest, pop, reset,
  step, run,
}

pub record IsBalanced (q : BoundedAudioQueue) : Type 0 where
  pub conserved : q.summary.enqueued ≡ q.summary.dequeued + q.summary.dropped + length q.frames
  pub depth_shown : q.summary.depth ≡ length q.frames
  pub bounded : length q.frames ≤ q.capacity
  pub positive : 0 < q.capacity

push-IsBalanced :
    (q : BoundedAudioQueue) (frame : AudioFrame) (now : ℕ)
    → q.summary.enqueued < u64_max
    → IsBalanced q
    → IsBalanced (push q frame now)
unfolding push
push-IsBalanced q frame now few v =
    let queued : QueuedFrame = record { frame = frame; enqueued_at = now } in
    ground (
      arith,
      length-append q.frames (queued ∷ []),
      length-append (drop_oldest q).frames (queued ∷ []),
      length-drop 1 q.frames,
    )

pop-IsBalanced :
    (q : BoundedAudioQueue) (now : ℕ)
    → q.summary.enqueued ≤ u64_max
    → IsBalanced q
    → IsBalanced (pop q now).0
unfolding pop
pop-IsBalanced q now few v = ground arith

reset-IsBalanced : (q : BoundedAudioQueue) → IsBalanced q → IsBalanced (reset q)
unfolding reset
reset-IsBalanced q v = ground arith

step-IsBalanced :
    (q : BoundedAudioQueue) (op : QueueOp)
    → q.summary.enqueued < u64_max
    → IsBalanced q
    → IsBalanced (step q op)
unfolding step
step-IsBalanced q (pushes frame now) few v = push-IsBalanced q frame now few v
step-IsBalanced q (pops now) few v = pop-IsBalanced q now (omega arith) v
step-IsBalanced q resets few v = reset-IsBalanced q v

enqueued-step :
    (q : BoundedAudioQueue) (op : QueueOp) → (step q op).summary.enqueued ≤ suc q.summary.enqueued
unfolding step push pop reset
enqueued-step q op = ground arith

capacity-step : (q : BoundedAudioQueue) (op : QueueOp) → (step q op).capacity ≡ q.capacity
unfolding step push pop reset
capacity-step q op = ground arith

run-IsBalanced :
    (q : BoundedAudioQueue) (ops : List QueueOp)
    → q.summary.enqueued + length ops ≤ u64_max
    → IsBalanced q
    → IsBalanced (run q ops) × ((run q ops).capacity ≡ q.capacity)
unfolding run
run-IsBalanced q [] few v = (v, refl)
run-IsBalanced q (op ∷ ops) few v =
    let (v', e) =
      run-IsBalanced (step q op) ops (omega (arith, enqueued-step q op))
        (step-IsBalanced q op (omega arith) v) in
    (v', cc (capacity-step q op, e))

-- After any operations on a new queue of some capacity, no more of them than a `u64` counts: every
-- frame that was enqueued since the last reset is dequeued, dropped or held; the depth that is
-- reported is the number held; and it is at most the capacity.
pub run-new-IsBalanced :
    (capacity : ℕ) (q : BoundedAudioQueue) (ops : List QueueOp)
    → new capacity ≡ ok q
    → length ops ≤ u64_max
    → IsBalanced (run q ops) × ((run q ops).capacity ≡ capacity)
unfolding new
run-new-IsBalanced capacity q ops h few =
    let fresh : IsBalanced q = ground arith in
    let (v, e) = run-IsBalanced q ops (ground arith) fresh in (v, ground arith)
