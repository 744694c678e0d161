-- ===== src/Daemon/Messages/Scheduler.antt =====
-- `MessageSyncScheduler`: synchronisation on notifications, with polling when they fail to come.
-- Durations are nanoseconds since the daemon started.
pub mod Modeless
use analogconnect.Base.{
  ℕ, ◌+◌, ◌*◌, ◌-◌, ◌^◌, min, Bool, true, false, ◌&&◌, Option, none, some, leb, if◌then◌else◌, List,
  [], ◌∷◌,
}
use analogconnect.Base.Text.{Text, chars, same, member}

pub data MessageSyncMode : Type 0 where
  notifications polling : MessageSyncMode

pub data MapEventKind : Type 0 where
  new_message message_shift message_deleted read_status_changed delivery_state_changed
        memory_state_changed unknown :
      MapEventKind

unfoldable pub from_wire_name : Text → MapEventKind
unfolding same member
from_wire_name name =
    if same name (chars "NewMessage")
    then new_message
    else if same name (chars "MessageShift")
    then message_shift
    else if same name (chars "MessageDeleted")
    then message_deleted
    else if same name (chars "ReadStatusChanged")
    then read_status_changed
    else if member name (
        chars "DeliverySuccess"
        ∷ chars "DeliveryFailure"
        ∷ chars "SendingSuccess"
        ∷ chars "SendingFailure"
        ∷ [])
    then delivery_state_changed
    else if member name (chars "MemoryFull" ∷ chars "MemoryAvailable" ∷ [])
    then memory_state_changed
    else unknown

unfoldable pub requires_sync : MapEventKind → Bool
requires_sync new_message = true
requires_sync message_shift = true
requires_sync message_deleted = true
requires_sync read_status_changed = true
requires_sync delivery_state_changed = true
requires_sync memory_state_changed = false
requires_sync unknown = false

pub data SyncTrigger : Type 0 where
  notification_trigger poll_trigger : SyncTrigger

pub record MessageSyncScheduler : Type 0 where
  pub mode : MessageSyncMode
  pub poll_interval : ℕ
  pub notification_timeout : ℕ
  pub last_notification_at : Option ℕ
  pub next_poll_at : ℕ

-- `Duration::MAX`, and `saturating_add` of durations.
abbrev pub duration_max : ℕ
duration_max = 2 ^ 64 * 1000000000 - 1

abbrev pub later : ℕ → ℕ → ℕ
later a b = min (a + b) duration_max

unfoldable pub new_scheduler : ℕ → ℕ → MessageSyncScheduler
new_scheduler poll_interval notification_timeout = record {
  mode = polling;
  poll_interval = poll_interval;
  notification_timeout = notification_timeout;
  last_notification_at = none;
  next_poll_at = 0;
}

unfoldable pub notice : MessageSyncScheduler → ℕ → Text → MessageSyncScheduler × Option SyncTrigger
notice s now wire_name = (
  record s {
    mode = notifications;
    last_notification_at = some now;
    next_poll_at = later now s.poll_interval;
  },
  if requires_sync (from_wire_name wire_name) then some notification_trigger else none,
)

-- The first half of a tick: silence for the timeout brings polling back.
abbrev pub is_silent : Option ℕ → ℕ → ℕ → Bool
is_silent none timeout now = false
is_silent (some last) timeout now = leb timeout (now - last)

unfoldable pub fall_back : MessageSyncScheduler → ℕ → MessageSyncScheduler
fall_back s now =
    if is_silent s.last_notification_at s.notification_timeout now
    then record s { mode = polling }
    else s

abbrev pub is_polling : MessageSyncMode → Bool
is_polling notifications = false
is_polling polling = true

-- The second half.
unfoldable pub poll_if_due : MessageSyncScheduler → ℕ → MessageSyncScheduler × Option SyncTrigger
poll_if_due s now =
    if is_polling s.mode && leb s.next_poll_at now
    then (record s { next_poll_at = later now s.poll_interval }, some poll_trigger)
    else (s, none)

unfoldable pub tick : MessageSyncScheduler → ℕ → MessageSyncScheduler × Option SyncTrigger
tick s now = poll_if_due (fall_back s now) now
