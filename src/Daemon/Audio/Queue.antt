-- ===== src/Daemon/Audio/Queue.antt =====
-- `BoundedAudioQueue` and `AudioBridge`: frames between two threads, the newest kept.
-- Times are nanoseconds of a monotonic clock. The lock is never poisoned, since no code panics
-- while it holds it.
pub mod Newest
pub mod Accounting
use analogconnect.Base.{
  ℕ, suc, ◌+◌, ◌-◌, ◌/◌, max, Bool, Option, none, some, List, [], ◌∷◌, ◌++◌, Result, ok, err, ◌>>=◌,
  length, ◌==◌, drop, min, if◌then◌else◌,
}
use analogconnect.Base.Words.{u64_max, saturating_add}
use analogconnect.Core.Audio.{AudioFrame}

pub record QueuedFrame : Type 0 where
  pub frame : AudioFrame
  pub enqueued_at : ℕ

pub record AudioQueueSummary : Type 0 where
  pub depth : ℕ
  pub enqueued : ℕ
  pub dequeued : ℕ
  pub dropped : ℕ
  pub max_observed_latency_micros : ℕ

pub record BoundedAudioQueue : Type 0 where
  pub capacity : ℕ
  pub frames : List QueuedFrame
  pub summary : AudioQueueSummary

pub data AudioQueueError : Type 0 where
  zero_capacity : AudioQueueError

abbrev pub empty_summary : AudioQueueSummary
empty_summary = record {
  depth = 0;
  enqueued = 0;
  dequeued = 0;
  dropped = 0;
  max_observed_latency_micros = 0;
}

unfoldable pub new : ℕ → Result BoundedAudioQueue AudioQueueError
new capacity =
    if capacity == 0
    then err zero_capacity
    else ok (record { capacity = capacity; frames = []; summary = empty_summary })

-- `pop_front` and the count of a full queue.
abbrev pub drop_oldest : BoundedAudioQueue → BoundedAudioQueue
drop_oldest q = record q {
  frames = drop 1 q.frames;
  summary = record (q.summary) { dropped = saturating_add q.summary.dropped 1 };
}

abbrev pub push_back : BoundedAudioQueue → QueuedFrame → BoundedAudioQueue
push_back q queued =
    let frames = q.frames ++ (queued ∷ []) in
    record q {
      frames = frames;
      summary = record (q.summary) {
        enqueued = saturating_add q.summary.enqueued 1;
        depth = length frames;
      };
    }

unfoldable pub push : BoundedAudioQueue → AudioFrame → ℕ → BoundedAudioQueue
push q frame now =
    let queued : QueuedFrame = record { frame = frame; enqueued_at = now } in
    if length q.frames == q.capacity then push_back (drop_oldest q) queued else push_back q queued

-- The whole microseconds since a time, at most what a `u64` holds.
abbrev pub latency : ℕ → ℕ → ℕ
latency enqueued_at now = min ((now - enqueued_at) / 1000) u64_max

abbrev pub pop_front :
    BoundedAudioQueue → List QueuedFrame → ℕ → BoundedAudioQueue × Option AudioFrame
pop_front q [] now = (q, none)
pop_front q (queued ∷ rest) now = (
  record q {
    frames = rest;
    summary = record (q.summary) {
      dequeued = saturating_add q.summary.dequeued 1;
      max_observed_latency_micros =
          max q.summary.max_observed_latency_micros (latency queued.enqueued_at now);
      depth = length rest;
    };
  },
  some queued.frame,
)

unfoldable pub pop : BoundedAudioQueue → ℕ → BoundedAudioQueue × Option AudioFrame
pop q now = pop_front q q.frames now

unfoldable pub reset : BoundedAudioQueue → BoundedAudioQueue
reset q = record q { frames = []; summary = empty_summary }

-- The two directions of a call.
pub record AudioBridge : Type 0 where
  pub uplink : BoundedAudioQueue
  pub downlink : BoundedAudioQueue

unfoldable pub new_bridge : ℕ → Result AudioBridge AudioQueueError
unfolding new
new_bridge frames_per_direction = do
  uplink ← new frames_per_direction
  downlink ← new frames_per_direction
  ok (record { uplink = uplink; downlink = downlink })

unfoldable pub reset_bridge : AudioBridge → AudioBridge
unfolding reset
reset_bridge bridge = record { uplink = reset bridge.uplink; downlink = reset bridge.downlink }

pub data QueueOp : Type 0 where
  pushes : AudioFrame → ℕ → QueueOp
  pops : ℕ → QueueOp
  resets : QueueOp

unfoldable pub step : BoundedAudioQueue → QueueOp → BoundedAudioQueue
step q (pushes frame now) = push q frame now
step q (pops now) = (pop q now).0
step q resets = reset q

unfoldable pub run : BoundedAudioQueue → List QueueOp → BoundedAudioQueue
run q [] = q
run q (op ∷ ops) = run (step q op) ops
