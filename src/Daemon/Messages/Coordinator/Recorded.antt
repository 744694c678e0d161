-- ===== src/Daemon/Messages/Coordinator/Recorded.antt =====
-- The summary of `MessageSyncCoordinator` against what the scheduler triggered and what was reported.
use analogconnect.Base.{
  ℕ, suc, ◌+◌, ◌≤◌, ◌<◌, ◌≡◌, ◌≢◌, ◌⊎◌, inl, inr, refl, ap, ◌∙◌, Bool, true, false, Option, none,
  some, List, [], ◌∷◌, length, map, Result, ok, err, arith,
}
use analogconnect.Base.Words.{u64_max, saturating_add}
use analogconnect.Core.State.Sync
use analogconnect.Core.State.Sync.{SyncState, idle, syncing, backing_off, error}
use analogconnect.Daemon.Messages.Scheduler.{MessageSyncScheduler, SyncTrigger, notice, tick}
use analogconnect.Daemon.Messages.Scheduler.Modeless.{SchedulerCall, notices, ticks, call, triggers}
use analogconnect.Daemon.Messages.Coordinator.{
  Coordinator, MessageSyncSummary, MessageCoordinatorError, sync_failed, lock_poisoned, move_to,
  record_result, scheduled, start, synchronize, attempt, synchronize_if, notify, tick_sync,
}

-- Between calls no synchronisation is under way, and the state tells how the last one ended.
abbrev pub IsResting : SyncState → Type 0
IsResting state = (state ≡ idle) ⊎ (state ≡ backing_off)

-- What one synchronisation does to the summary, by whether the backend succeeded.
abbrev pub told : MessageSyncSummary → Bool → Option ℕ → MessageSyncSummary
told summary true wall_clock = record summary {
  state = idle;
  successful_syncs = saturating_add summary.successful_syncs 1;
  last_success_unix_seconds = wall_clock;
}
told summary false wall_clock = record summary {
  state = backing_off;
  failed_syncs = saturating_add summary.failed_syncs 1;
}

abbrev pub reported : Bool → Result (Unit {0}) MessageCoordinatorError
reported true = ok tt
reported false = err sync_failed

move_to-syncing :
    (summary : MessageSyncSummary)
    → IsResting summary.state
    → move_to summary syncing ≡ (record summary { state = syncing }, ok tt)
unfolding move_to Sync.transition_to Sync.allowed
move_to-syncing summary rest = ground arith

record_result-told :
    (summary : MessageSyncSummary) (succeeded : Bool) (wall_clock : Option ℕ)
    → record_result (record summary { state = syncing }) succeeded wall_clock
      ≡ (told summary succeeded wall_clock, reported succeeded)
unfolding record_result move_to Sync.transition_to Sync.allowed
record_result-told summary true wall_clock = refl
record_result-told summary false wall_clock = refl

module _ {B : Type 0} (sync_conversations : B → B × Bool) where
  -- The coordinator after a synchronisation.
  abbrev pub synchronized : Coordinator B → Option ℕ → Coordinator B
  synchronized c wall_clock =
      let (backend, succeeded) = sync_conversations c.backend in
      record c { backend = backend; summary = told c.summary succeeded wall_clock }

  synchronize-told :
      (c : Coordinator B) (wall_clock : Option ℕ)
      → IsResting c.summary.state
      → synchronize sync_conversations c wall_clock
        ≡ (synchronized c wall_clock, reported (sync_conversations c.backend).1)
  unfolding synchronize
  synchronize-told c wall_clock rest =
      let (backend, succeeded) = sync_conversations c.backend in
      ap (attempt sync_conversations c wall_clock) (move_to-syncing c.summary rest)
      ∙ ap (λ r. (record c { backend = backend; summary = r.0 }, r.1))
          (record_result-told c.summary succeeded wall_clock)

  -- A call of the coordinator is a call of its scheduler, with the wall clock at hand.
  abbrev pub coordinate :
      Coordinator B
      → SchedulerCall × Option ℕ
      → Coordinator B × Result (Unit {0}) MessageCoordinatorError
  coordinate c (notices now wire_name, wall_clock) =
      notify sync_conversations c now wire_name wall_clock
  coordinate c (ticks now, wall_clock) = tick_sync sync_conversations c now wall_clock

  coordinate-call :
      (c : Coordinator B) (d : SchedulerCall × Option ℕ)
      → coordinate c d
        ≡ synchronize_if sync_conversations
            (scheduled c (call c.scheduler d.0).0)
            (call c.scheduler d.0).1
            d.1
  unfolding notify tick_sync
  coordinate-call c (notices now wire_name, wall_clock) = refl
  coordinate-call c (ticks now, wall_clock) = refl

  -- The coordinator after some calls, and what they reported.
  abbrev pub coordinate_all :
      Coordinator B
      → List (SchedulerCall × Option ℕ)
      → Coordinator B × List (Result (Unit {0}) MessageCoordinatorError)
  coordinate_all c [] = (c, [])
  coordinate_all c (d ∷ ds) =
      let (c', report) = coordinate c d in
      let (c'', reports) = coordinate_all c' ds in (c'', report ∷ reports)

-- How many calls triggered a synchronisation, and how many reports are of a failed one.
abbrev pub asked : List (Option SyncTrigger) → ℕ
asked [] = 0
asked (none ∷ ts) = asked ts
asked (some trigger ∷ ts) = suc (asked ts)

abbrev pub failures : List (Result (Unit {0}) MessageCoordinatorError) → ℕ
failures [] = 0
failures (ok done ∷ rs) = failures rs
failures (err e ∷ rs) = suc (failures rs)

abbrev pub NonePoisoned : List (Result (Unit {0}) MessageCoordinatorError) → Type 0
NonePoisoned [] = Unit {0}
NonePoisoned (r ∷ rs) = (r ≢ err lock_poisoned) × NonePoisoned rs

-- What some calls did to the counts: `n` synchronisations, of which `k` failed.
record Counted (before after : MessageSyncSummary) (n k : ℕ) : Type 0 where
  total :
      after.successful_syncs + after.failed_syncs
      ≡ before.successful_syncs + before.failed_syncs + n
  failed : after.failed_syncs ≡ before.failed_syncs + k
  resting : IsResting after.state

told-Counted :
    (summary : MessageSyncSummary) (succeeded : Bool) (wall_clock : Option ℕ)
    → summary.successful_syncs + summary.failed_syncs < u64_max
    → Counted summary (told summary succeeded wall_clock) 1 (failures (reported succeeded ∷ []))
told-Counted summary true wall_clock few = record {
  total = omega arith;
  failed = omega arith;
  resting = inl refl;
}
told-Counted summary false wall_clock few = record {
  total = omega arith;
  failed = omega arith;
  resting = inr refl;
}

asked_le : (t : Option SyncTrigger) → asked (t ∷ []) ≤ 1
asked_le t = ground arith

asked_cons :
    (t : Option SyncTrigger) (ts : List (Option SyncTrigger))
    → asked (t ∷ ts) ≡ asked (t ∷ []) + asked ts
asked_cons none ts = omega arith
asked_cons (some trigger) ts = omega arith

failures_cons :
    (r : Result (Unit {0}) MessageCoordinatorError)
    (rs : List (Result (Unit {0}) MessageCoordinatorError))
    → failures (r ∷ rs) ≡ failures (r ∷ []) + failures rs
failures_cons (ok done) rs = omega arith
failures_cons (err e) rs = omega arith

reported_sound : (succeeded : Bool) → reported succeeded ≢ err lock_poisoned
reported_sound true e = absurd (ground arith)
reported_sound false e = absurd (ground arith)

module _ {B : Type 0} (sync_conversations : B → B × Bool) where
  synchronize_if-Counted :
      (c : Coordinator B) (trigger : Option SyncTrigger) (wall_clock : Option ℕ)
      → c.summary.successful_syncs + c.summary.failed_syncs < u64_max
      → IsResting c.summary.state
      → (let (c', report) = synchronize_if sync_conversations c trigger wall_clock in
          Counted c.summary c'.summary (asked (trigger ∷ [])) (failures (report ∷ []))
          × (report ≢ err lock_poisoned)
          × (c'.scheduler ≡ c.scheduler))
  synchronize_if-Counted c none wall_clock few rest = (
    record { total = omega arith; failed = omega arith; resting = rest },
    λ e. absurd (ground arith),
    refl,
  )
  synchronize_if-Counted c (some trigger) wall_clock few rest =
      rw (synchronize-told sync_conversations c wall_clock rest) (
        told-Counted c.summary (sync_conversations c.backend).1 wall_clock few,
        reported_sound (sync_conversations c.backend).1,
        refl,
      )

  -- One call, as its scheduler's call triggers.
  coordinate-Counted :
      (c : Coordinator B) (d : SchedulerCall × Option ℕ)
      → c.summary.successful_syncs + c.summary.failed_syncs < u64_max
      → IsResting c.summary.state
      → (let (c', report) = coordinate sync_conversations c d in
          let (scheduler, trigger) = call c.scheduler d.0 in
          Counted c.summary c'.summary (asked (trigger ∷ [])) (failures (report ∷ []))
          × (report ≢ err lock_poisoned)
          × (c'.scheduler ≡ scheduler))
  unfolding notify tick_sync
  coordinate-Counted c (notices now wire_name, wall_clock) few rest =
      let (v, sound, kept) =
        synchronize_if-Counted (scheduled c (notice c.scheduler now wire_name).0)
          (notice c.scheduler now wire_name).1 wall_clock few rest in
      (record { total = v.total; failed = v.failed; resting = v.resting }, sound, kept)
  coordinate-Counted c (ticks now, wall_clock) few rest =
      let (v, sound, kept) =
        synchronize_if-Counted (scheduled c (tick c.scheduler now).0) (tick c.scheduler now).1
          wall_clock few rest in
      (record { total = v.total; failed = v.failed; resting = v.resting }, sound, kept)

  coordinate_all-Counted :
      (c : Coordinator B) (ds : List (SchedulerCall × Option ℕ))
      → c.summary.successful_syncs + c.summary.failed_syncs + length ds ≤ u64_max
      → IsResting c.summary.state
      → (let (c', reports) = coordinate_all sync_conversations c ds in
          Counted c.summary c'.summary
            (asked (triggers c.scheduler (map (λ d. d.0) ds)))
            (failures reports)
          × NonePoisoned reports)
  coordinate_all-Counted c [] few rest =
      (record { total = omega arith; failed = omega arith; resting = rest }, tt)
  coordinate_all-Counted c (d ∷ ds) few rest =
      let (v, sound, kept) = coordinate-Counted c d (omega arith) rest in
      let c' = (coordinate sync_conversations c d).0 in
      let one = asked_le (call c.scheduler d.0).1 in
      let (u, sounds) = coordinate_all-Counted c' ds (omega (arith, v.total, one)) v.resting in
      let later = ap (λ s. asked (triggers s (map (λ d. d.0) ds))) kept in
      (
        record {
          total = omega (
            arith,
            v.total,
            u.total,
            later,
            asked_cons (call c.scheduler d.0).1
                (triggers (call c.scheduler d.0).0 (map (λ d. d.0) ds)),
          );
          failed = omega (
            arith,
            v.failed,
            u.failed,
            failures_cons (coordinate sync_conversations c d).1
                (coordinate_all sync_conversations c' ds).1,
          );
          resting = u.resting;
        },
        (sound, sounds),
      )

-- After any calls on a new coordinator, one after the other and at most as many as a `u64` counts:
-- the synchronisations counted as successful and as failed are together those that the scheduler
-- triggered; those counted as failed are the calls that reported a failure; no call reported a
-- poisoned lock; and the state is idle or backing off.
pub coordinate_all-start :
    {B : Type 0} (sync_conversations : B → B × Bool) (backend : B)
    (scheduler : MessageSyncScheduler) (ds : List (SchedulerCall × Option ℕ))
    → length ds ≤ u64_max
    → (let (c, reports) = coordinate_all sync_conversations (start backend scheduler) ds in
        (c.summary.successful_syncs + c.summary.failed_syncs
          ≡ asked (triggers scheduler (map (λ d. d.0) ds)))
        × (c.summary.failed_syncs ≡ failures reports)
        × NonePoisoned reports
        × IsResting c.summary.state)
coordinate_all-start sync_conversations backend scheduler ds few =
    let (v, sounds) =
      coordinate_all-Counted sync_conversations (start backend scheduler) ds (omega (arith, few))
        (inl refl) in
    (v.total ∙ omega arith, v.failed ∙ omega arith, sounds, v.resting)
