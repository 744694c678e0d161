-- ===== src/Tests/AudioTests.antt =====
-- The queue and the watchdog of crates/analogconnectd/src/audio.rs.
use analogconnect.Base.{ℕ, ◌≡◌, refl, List, [], ◌∷◌, none, some, ok, true, replicate, arith}
use analogconnect.Core.Audio.{AudioFrame, hfp_narrowband}
use analogconnect.Core.State.Call
use analogconnect.Core.State.Call.{idle, active, ended}
use analogconnect.Core.State.AudioTransport
use analogconnect.Core.State.AudioTransport.{sco_active, error}
use analogconnect.Daemon.Audio.Queue
use analogconnect.Daemon.Audio.Queue.{
  BoundedAudioQueue, QueueOp, pushes, pops, resets, empty_summary, push, pop, run,
}
use analogconnect.Daemon.Audio.Queue.Accounting.{IsBalanced, run-new-IsBalanced}
use analogconnect.Daemon.Audio.Queue.Newest.{push_all, pop_all, pop_all-push_all}
use analogconnect.Daemon.Audio.Watchdog
use analogconnect.Daemon.Audio.Watchdog.{observe}
use analogconnect.Daemon.Audio.Watchdog.Onset.{Sample, observe_all, observe-onset}

abbrev numbered : ℕ → AudioFrame
numbered n = record { sequence = n; format = hfp_narrowband; samples = replicate 60 0 }

abbrev pair : BoundedAudioQueue
pair = record { capacity = 2; frames = []; summary = empty_summary }

new-pair : Queue.new 2 ≡ ok pair
unfolding Queue.new
new-pair = refl

abbrev calls : List QueueOp
calls = pushes (numbered 0) 10 ∷ pushes (numbered 1) 20 ∷ pushes (numbered 2) 30 ∷ pops 5000 ∷ []

run-new-IsBalanced_example : IsBalanced (run pair calls) × ((run pair calls).capacity ≡ 2)
run-new-IsBalanced_example = run-new-IsBalanced 2 pair calls new-pair (omega arith)

latency-run : (run pair calls).summary.max_observed_latency_micros ≡ 4
unfolding run Queue.step push pop
latency-run = refl

abbrev arrivals : List (AudioFrame × ℕ)
arrivals = (numbered 0, 10) ∷ (numbered 1, 20) ∷ (numbered 2, 30) ∷ []

pop_all-push_all_example :
    pop_all (push_all pair arrivals) (100 ∷ 200 ∷ 300 ∷ [])
    ≡ some (numbered 1) ∷ some (numbered 2) ∷ none ∷ []
pop_all-push_all_example = pop_all-push_all 2 pair arrivals (100 ∷ 200 ∷ 300 ∷ []) new-pair

abbrev talking : Sample
talking = record { call = active; audio = sco_active; now = 100 }

abbrev lingering : ℕ → Sample
lingering now = record { call = ended; audio = sco_active; now = now }

observe-onset_example :
    (observe
      (observe_all (Watchdog.new 50) (lingering 10 ∷ talking ∷ lingering 200 ∷ []))
      idle
      sco_active
      260).1
    ≡ record { state = error; stalled = true }
unfolding Watchdog.is_inconsistent Call.discriminant AudioTransport.discriminant
observe-onset_example =
    observe-onset 50 (lingering 10 ∷ talking ∷ []) (lingering 200 ∷ [])
      (record { call = idle; audio = sco_active; now = 260 }) refl refl refl
