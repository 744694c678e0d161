-- ===== src/Daemon/Audio/Queue/Newest.antt =====
-- Frames pushed onto a `BoundedAudioQueue` and then popped.
use analogconnect.Base.{
  newest, newest-newest, length-newest, ℕ, zero, suc, ◌-◌, ◌≤◌, ◌<◌, ◌≡◌, refl, sym, ap, ap₂, ◌∙◌,
  inl, inr, Bool-cases, List, [], ◌∷◌, ◌++◌, append-nil, append_assoc, map, length, length-append,
  length-map, drop, drop-append-le, Option, none, some, ok, arith, ◌==◌,
}
use analogconnect.Core.Audio.{AudioFrame}
use analogconnect.Daemon.Audio.Queue.{BoundedAudioQueue, QueuedFrame, new, push, pop, pop_front}

pub frames-push :
    (q : BoundedAudioQueue) (frame : AudioFrame) (now : ℕ)
    → 0 < q.capacity
    → length q.frames ≤ q.capacity
    → ((push q frame now).frames
        ≡ newest q.capacity (q.frames ++ (record { frame = frame; enqueued_at = now } ∷ [])))
      × ((push q frame now).capacity ≡ q.capacity)
unfolding push
frames-push q frame now h few =
    let queued : QueuedFrame = record { frame = frame; enqueued_at = now } in
    let grown = length-append q.frames (queued ∷ []) in
    elim (Bool-cases (length q.frames == q.capacity)) [
      | inl full ↦
          let one : length (q.frames ++ (queued ∷ [])) - q.capacity ≡ 1 = ground arith in
          rw (full, one) (sym (drop-append-le 1 q.frames (queued ∷ []) (ground arith)), refl)
      | inr room ↦
          let all : length (q.frames ++ (queued ∷ [])) - q.capacity ≡ 0 = ground arith in
          rw (room, all) (refl, refl)
    ]

abbrev pub push_all : BoundedAudioQueue → List (AudioFrame × ℕ) → BoundedAudioQueue
push_all q [] = q
push_all q ((frame, now) ∷ arrivals) = push_all (push q frame now) arrivals

abbrev queued_of : AudioFrame × ℕ → QueuedFrame
queued_of (frame, now) = record { frame = frame; enqueued_at = now }

frames-push_all :
    (q : BoundedAudioQueue) (arrivals : List (AudioFrame × ℕ))
    → 0 < q.capacity
    → length q.frames ≤ q.capacity
    → (push_all q arrivals).frames ≡ newest q.capacity (q.frames ++ map queued_of arrivals)
frames-push_all q [] h few =
    let all : length q.frames - q.capacity ≡ 0 = omega arith in rw (append-nil q.frames, all) refl
frames-push_all q ((frame, now) ∷ arrivals) h few =
    let queued : QueuedFrame = record { frame = frame; enqueued_at = now } in
    let (pushed, kept) = frames-push q frame now h few in
    let small = length-newest q.capacity (q.frames ++ (queued ∷ [])) in
    frames-push_all (push q frame now) arrivals (rw kept h) (rw (pushed, kept) small)
    ∙ rw (pushed, kept)
        (newest-newest q.capacity (q.frames ++ (queued ∷ [])) (map queued_of arrivals))
    ∙ ap (newest q.capacity) (append_assoc q.frames (queued ∷ []) (map queued_of arrivals))

-- The results of popping at each of some times.
abbrev pub pop_all : BoundedAudioQueue → List ℕ → List (Option AudioFrame)
pop_all q [] = []
pop_all q (now ∷ times) = let (q', popped) = pop q now in popped ∷ pop_all q' times

-- The elements of a list, as a queue hands them out: `none` when it is used up.
abbrev pub handed_out : {A : Type 0} → List A → List ℕ → List (Option A)
handed_out xs [] = []
handed_out [] (now ∷ times) = none ∷ handed_out [] times
handed_out (x ∷ xs) (now ∷ times) = some x ∷ handed_out xs times

pub pop-frames :
    (q : BoundedAudioQueue) (xs : List QueuedFrame) (now : ℕ)
    → q.frames ≡ xs
    → pop q now ≡ pop_front q xs now
unfolding pop
pop-frames q xs now h = ap (λ frames. pop_front q frames now) h

pop_all-frames :
    (q : BoundedAudioQueue) (xs : List QueuedFrame) (times : List ℕ)
    → q.frames ≡ xs
    → pop_all q times ≡ handed_out (map (λ queued. queued.frame) xs) times
pop_all-frames q xs [] h = refl
pop_all-frames q [] (now ∷ times) h =
    rw (pop-frames q [] now h) (ap (◌∷◌ none) (pop_all-frames q [] times h))
pop_all-frames q (x ∷ xs) (now ∷ times) h =
    rw (pop-frames q (x ∷ xs) now h)
      (ap (◌∷◌ (some x.frame)) (pop_all-frames (pop_front q (x ∷ xs) now).0 xs times refl))

map-drop : {A B : Type 0} (f : A → B) (n : ℕ) (xs : List A) → map f (drop n xs) ≡ drop n (map f xs)
map-drop f zero xs = refl
map-drop f (suc n) [] = refl
map-drop f (suc n) (x ∷ xs) = map-drop f n xs

frames_of_queued :
    (arrivals : List (AudioFrame × ℕ))
    → map (λ queued. queued.frame) (map queued_of arrivals) ≡ map (λ arrival. arrival.0) arrivals
frames_of_queued [] = refl
frames_of_queued ((frame, now) ∷ arrivals) = ap (◌∷◌ frame) (frames_of_queued arrivals)

-- Frames are pushed onto a new queue, as many as one likes, and then popped: the pops give the last
-- frames pushed, as many as the capacity, in the order in which they came, and then nothing.
pub pop_all-push_all :
    (capacity : ℕ) (q : BoundedAudioQueue) (arrivals : List (AudioFrame × ℕ)) (times : List ℕ)
    → new capacity ≡ ok q
    → pop_all (push_all q arrivals) times
      ≡ handed_out (newest capacity (map (λ arrival. arrival.0) arrivals)) times
unfolding new
pop_all-push_all capacity q arrivals times h =
    let fresh : (q.frames ≡ []) × (q.capacity ≡ capacity) × (0 < q.capacity) = ground arith in
    let pushed = frames-push_all q arrivals (fresh.2) (rw (fresh.0) (omega arith)) in
    let sizes : length (map queued_of arrivals) ≡ length (map (λ arrival. arrival.0) arrivals) =
      cc (length-map queued_of arrivals, length-map (λ arrival. arrival.0) arrivals) in
    pop_all-frames (push_all q arrivals) (newest capacity (map queued_of arrivals)) times
      (pushed ∙ ap₂ (λ c xs. newest c (xs ++ map queued_of arrivals)) fresh.1 fresh.0)
    ∙ ap (λ xs. handed_out xs times)
        (map-drop (λ queued. queued.frame) (length (map queued_of arrivals) - capacity)
            (map queued_of arrivals)
          ∙ ap₂ (λ n xs. drop (n - capacity) xs) sizes (frames_of_queued arrivals))
