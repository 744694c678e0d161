-- ===== src/Daemon/Messages/Coordinator.antt =====
-- `MessageSyncCoordinator`: when the scheduler says so, the backend synchronises, and the summary records it.
-- The backend is a parameter: its state, and one synchronisation that says whether it succeeded. The
-- wall clock, in seconds since 1970 if it is not before that, is an argument. The calls come one
-- after the other; a lock is poisoned only if code that holds it panics, and none of it does.
pub mod Recorded
use analogconnect.Base.{ℕ, suc, Bool, true, false, Option, none, some, Result, ok, err, ◌>>=◌}
use analogconnect.Base.Text.{Text}
use analogconnect.Base.Words.{saturating_add}
use analogconnect.Core.State.Sync
use analogconnect.Core.State.Sync.{SyncState, idle, syncing, backing_off}
use analogconnect.Daemon.Messages.Scheduler.{
  MessageSyncMode, polling, MessageSyncScheduler, SyncTrigger, notice, tick,
}

pub record MessageSyncSummary : Type 0 where
  pub state : SyncState
  pub mode : MessageSyncMode
  pub successful_syncs : ℕ
  pub failed_syncs : ℕ
  pub last_success_unix_seconds : Option ℕ

abbrev pub default_summary : MessageSyncSummary
default_summary = record {
  state = idle;
  mode = polling;
  successful_syncs = 0;
  failed_syncs = 0;
  last_success_unix_seconds = none;
}

pub data MessageCoordinatorError : Type 0 where
  sync_failed lock_poisoned : MessageCoordinatorError

-- `state.transition_to(next)`, a refusal reported as a poisoned lock.
unfoldable pub move_to :
    MessageSyncSummary → SyncState → MessageSyncSummary × Result (Unit {0}) MessageCoordinatorError
move_to summary next =
    let (state, moved) = Sync.transition_to "message_sync" summary.state next in
    (record summary { state = state }, elim moved [ ok done ↦ ok tt | err e ↦ err lock_poisoned ])

-- `synchronize` after the backend's work.
unfoldable pub record_result :
    MessageSyncSummary
    → Bool
    → Option ℕ
    → MessageSyncSummary × Result (Unit {0}) MessageCoordinatorError
unfolding move_to
record_result summary true wall_clock =
    move_to
      (record summary {
        successful_syncs = saturating_add summary.successful_syncs 1;
        last_success_unix_seconds = wall_clock;
      })
      idle
record_result summary false wall_clock =
    let (summary', moved) =
      move_to (record summary { failed_syncs = saturating_add summary.failed_syncs 1 })
        backing_off in
    (summary', elim moved [ ok done ↦ err sync_failed | err e ↦ err e ])

pub record Coordinator (B : Type 0) : Type 0 where
  pub backend : B
  pub scheduler : MessageSyncScheduler
  pub summary : MessageSyncSummary

abbrev pub start : {B : Type 0} → B → MessageSyncScheduler → Coordinator B
start backend scheduler = record {
  backend = backend;
  scheduler = scheduler;
  summary = default_summary;
}

-- The scheduler after a call, and its mode in the summary.
abbrev pub scheduled : {B : Type 0} → Coordinator B → MessageSyncScheduler → Coordinator B
scheduled c scheduler = record c {
  scheduler = scheduler;
  summary = record (c.summary) { mode = scheduler.mode };
}

module _ {B : Type 0} (sync_conversations : B → B × Bool) where
  -- `synchronize` from the transition to syncing on.
  abbrev pub attempt :
      Coordinator B
      → Option ℕ
      → MessageSyncSummary × Result (Unit {0}) MessageCoordinatorError
      → Coordinator B × Result (Unit {0}) MessageCoordinatorError
  attempt c wall_clock (started, err e) = (record c { summary = started }, err e)
  attempt c wall_clock (started, ok done) =
      let (backend, succeeded) = sync_conversations c.backend in
      let (summary, recorded) = record_result started succeeded wall_clock in
      (record c { backend = backend; summary = summary }, recorded)

  unfoldable pub synchronize :
      Coordinator B → Option ℕ → Coordinator B × Result (Unit {0}) MessageCoordinatorError
  synchronize c wall_clock = attempt c wall_clock (move_to c.summary syncing)

  abbrev pub synchronize_if :
      Coordinator B
      → Option SyncTrigger
      → Option ℕ
      → Coordinator B × Result (Unit {0}) MessageCoordinatorError
  synchronize_if c none wall_clock = (c, ok tt)
  synchronize_if c (some trigger) wall_clock = synchronize c wall_clock

  unfoldable pub notify :
      Coordinator B
      → ℕ
      → Text
      → Option ℕ
      → Coordinator B × Result (Unit {0}) MessageCoordinatorError
  notify c now wire_name wall_clock =
      let (scheduler, trigger) = notice c.scheduler now wire_name in
      synchronize_if (scheduled c scheduler) trigger wall_clock

  unfoldable pub tick_sync :
      Coordinator B → ℕ → Option ℕ → Coordinator B × Result (Unit {0}) MessageCoordinatorError
  tick_sync c now wall_clock =
      let (scheduler, trigger) = tick c.scheduler now in
      synchronize_if (scheduled c scheduler) trigger wall_clock
