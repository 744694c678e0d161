-- ===== src/Core/State/Sync.antt =====
-- `MessageSyncState` and `ContactSyncState`, which state.rs makes by one macro: the machine's literal is an
-- argument here, as it is of `sync_transitions!`.
use analogconnect.Base.{String, ℕ, Bool, true, Result, ◌==◌}
use analogconnect.Core.State.Transition.{TransitionError, commit}

pub data SyncState : Type 0 where
  idle syncing backing_off error : SyncState

-- The derived equality compares the declaration order.
unfoldable pub discriminant : SyncState → ℕ
discriminant idle = 0
discriminant syncing = 1
discriminant backing_off = 2
discriminant error = 3

unfoldable pub name : SyncState → String
name idle = "idle"
name syncing = "syncing"
name backing_off = "backing_off"
name error = "error"

unfoldable pub allowed : SyncState → SyncState → Bool
unfolding discriminant
allowed idle syncing = true
allowed idle error = true
allowed syncing idle = true
allowed syncing backing_off = true
allowed syncing error = true
allowed backing_off syncing = true
allowed backing_off idle = true
allowed backing_off error = true
allowed error idle = true
allowed error backing_off = true
allowed state next = discriminant state == discriminant next

unfoldable pub transition_to :
    String → SyncState → SyncState → SyncState × Result (Unit {0}) TransitionError
unfolding allowed
transition_to machine state next =
    commit (allowed state next) state next
      (record { machine = machine; from = name state; to = name next })
