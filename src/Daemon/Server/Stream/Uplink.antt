-- ===== src/Daemon/Server/Stream/Uplink.antt =====
-- What `receive_uplink_packet` makes of the bridge.
use analogconnect.Base.{
  ℕ, suc, ◌-◌, ◌≤◌, ◌<◌, ◌≡◌, refl, ap, ◌∙◌, ◌⊎◌, inl, inr, List, [], ◌∷◌, ◌++◌, append-nil,
  append_assoc, ok, err, Result-cases, length, newest, newest-newest, length-newest, arith,
}
use analogconnect.Core.Audio.{AudioFrame}
use analogconnect.Daemon.Audio.Queue.{BoundedAudioQueue, QueuedFrame, AudioBridge, push}
use analogconnect.Daemon.Audio.Queue.Newest.{frames-push}
use analogconnect.Daemon.Server.Stream.{
  MediaStreamError, decode_audio_batch, push_frames, received, receive_uplink_packet,
}

abbrev pub queued_at : List AudioFrame → (ℕ → ℕ) → List QueuedFrame
queued_at [] clock = []
queued_at (frame ∷ frames) clock =
    record { frame = frame; enqueued_at = clock 0 } ∷ queued_at frames (λ n. clock (suc n))

frames-push_frames :
    (q : BoundedAudioQueue) (frames : List AudioFrame) (clock : ℕ → ℕ)
    → 0 < q.capacity
    → length q.frames ≤ q.capacity
    → (push_frames q frames clock).frames ≡ newest q.capacity (q.frames ++ queued_at frames clock)
unfolding push_frames
frames-push_frames q [] clock h few =
    let all : length q.frames - q.capacity ≡ 0 = omega arith in rw (append-nil q.frames, all) refl
frames-push_frames q (frame ∷ frames) clock h few =
    let queued : QueuedFrame = record { frame = frame; enqueued_at = clock 0 } in
    let later = queued_at frames (λ n. clock (suc n)) in
    let (pushed, kept) = frames-push q frame (clock 0) h few in
    let small = length-newest q.capacity (q.frames ++ (queued ∷ [])) in
    frames-push_frames (push q frame (clock 0)) frames (λ n. clock (suc n)) (rw kept h)
      (rw (pushed, kept) small)
    ∙ rw (pushed, kept) (newest-newest q.capacity (q.frames ++ (queued ∷ [])) later)
    ∙ ap (newest q.capacity) (append_assoc q.frames (queued ∷ []) later)

-- The uplink queue is within its capacity, which is not zero. Either `decode_audio_batch` decodes the
-- message to frames; then they are queued in their order, the newest kept, and the downlink queue is
-- as before. Or it does not; then the bridge is as before, and the error is that of `decode_audio_batch`.
pub receive_uplink_packet_lem :
    (bridge : AudioBridge) (bytes : List ℕ) (clock : ℕ → ℕ)
    → 0 < bridge.uplink.capacity
    → length bridge.uplink.frames ≤ bridge.uplink.capacity
    → ((frames : List AudioFrame) × (decode_audio_batch bytes ≡ ok frames)
        × ((receive_uplink_packet bridge bytes clock).1 ≡ ok tt)
        × ((receive_uplink_packet bridge bytes clock).0.uplink.frames
            ≡ newest bridge.uplink.capacity (bridge.uplink.frames ++ queued_at frames clock))
        × ((receive_uplink_packet bridge bytes clock).0.downlink ≡ bridge.downlink))
      ⊎ ((e : MediaStreamError) × (decode_audio_batch bytes ≡ err e)
          × (receive_uplink_packet bridge bytes clock ≡ (bridge, err e)))
unfolding receive_uplink_packet
receive_uplink_packet_lem bridge bytes clock h few =
    elim (Result-cases (decode_audio_batch bytes)) [
      | inl (frames, e) ↦ inl (
        frames,
        e,
        ap (λ r. (received bridge clock r).1) e,
        ap (λ r. (received bridge clock r).0.uplink.frames) e
            ∙ frames-push_frames bridge.uplink frames clock h few,
        ap (λ r. (received bridge clock r).0.downlink) e,
      )
      | inr (e, h') ↦ inr (e, h', ap (received bridge clock) h')
    ]
