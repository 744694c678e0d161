-- ===== src/Daemon/Messages/Scheduler/Modeless.antt =====
-- The scheduler's contract, without its mode: when it asks for a synchronisation.
use analogconnect.Base.{
  ℕ, ◌-◌, ◌≤◌, ◌≡◌, refl, ap, ap₂, ◌∙◌, Bool, true, ◌&&◌, leb, if◌then◌else◌, Option, none, some,
  List, [], ◌∷◌, arith,
}
use analogconnect.Base.Text.{Text}
use analogconnect.Daemon.Messages.Scheduler.{
  MessageSyncScheduler, MessageSyncMode, notifications, polling, SyncTrigger, notification_trigger,
  poll_trigger, later, from_wire_name, requires_sync, new_scheduler, notice, fall_back, poll_if_due,
  tick,
}

pub data SchedulerCall : Type 0 where
  notices : ℕ → Text → SchedulerCall
  ticks : ℕ → SchedulerCall

abbrev pub time : SchedulerCall → ℕ
time (notices now wire_name) = now
time (ticks now) = now

-- The times never go back, from a time on.
abbrev pub AreLater : ℕ → List SchedulerCall → Type 0
AreLater from [] = Unit {0}
AreLater from (c ∷ cs) = (from ≤ time c) × AreLater (time c) cs

abbrev pub call : MessageSyncScheduler → SchedulerCall → MessageSyncScheduler × Option SyncTrigger
call s (notices now wire_name) = notice s now wire_name
call s (ticks now) = tick s now

abbrev pub triggers : MessageSyncScheduler → List SchedulerCall → List (Option SyncTrigger)
triggers s [] = []
triggers s (c ∷ cs) = (call s c).1 ∷ triggers (call s c).0 cs

-- What the contract keeps: the last notification, and the time before which there is no poll.
pub record Contract : Type 0 where
  pub poll_interval : ℕ
  pub notification_timeout : ℕ
  pub last : Option ℕ
  pub free_at : ℕ

abbrev pub no_news : Option ℕ → ℕ → ℕ → Bool
no_news none timeout now = true
no_news (some last) timeout now = leb timeout (now - last)

-- A notification triggers by its kind; a tick triggers if a poll is allowed and no news has come.
abbrev pub answer : Contract → SchedulerCall → Contract × Option SyncTrigger
answer c (notices now wire_name) = (
  record c { last = some now; free_at = later now c.poll_interval },
  if requires_sync (from_wire_name wire_name) then some notification_trigger else none,
)
answer c (ticks now) =
    if no_news c.last c.notification_timeout now && leb c.free_at now
    then (record c { free_at = later now c.poll_interval }, some poll_trigger)
    else (c, none)

abbrev pub answers : Contract → List SchedulerCall → List (Option SyncTrigger)
answers c [] = []
answers c (d ∷ ds) = (answer c d).1 ∷ answers (answer c d).0 ds

abbrev kept : MessageSyncScheduler → Contract
kept s = record {
  poll_interval = s.poll_interval;
  notification_timeout = s.notification_timeout;
  last = s.last_notification_at;
  free_at = s.next_poll_at;
}

-- The scheduler's mode is polling only if there is no news, and notifications only if there was some.
abbrev Fits : MessageSyncMode → Option ℕ → ℕ → ℕ → Type 0
Fits polling none timeout now = Unit {0}
Fits polling (some last) timeout now = timeout ≤ now - last
Fits notifications none timeout now = 1 ≤ 0
Fits notifications (some last) timeout now = Unit {0}

Fits-mono :
    (mode : MessageSyncMode) (last : Option ℕ) (timeout now now' : ℕ)
    → now ≤ now'
    → Fits mode last timeout now
    → Fits mode last timeout now'
Fits-mono mode last timeout now now' h f = ground arith

abbrev IsFit : MessageSyncScheduler → ℕ → Type 0
IsFit s now = Fits s.mode s.last_notification_at s.notification_timeout now

-- One call: the same trigger, the contract kept up, and the mode fit.
call-answer :
    (s : MessageSyncScheduler) (c : SchedulerCall)
    → IsFit s (time c)
    → ((call s c).1 ≡ (answer (kept s) c).1)
      × (kept (call s c).0 ≡ (answer (kept s) c).0)
      × IsFit (call s c).0 (time c)
unfolding notice tick fall_back poll_if_due
call-answer s (notices now wire_name) f = (refl, refl, tt)
call-answer s (ticks now) f = ground arith

triggers-answers :
    (s : MessageSyncScheduler) (from : ℕ) (cs : List SchedulerCall)
    → AreLater from cs
    → IsFit s from
    → triggers s cs ≡ answers (kept s) cs
triggers-answers s from [] l f = refl
triggers-answers s from (c ∷ cs) l f =
    let (same, kept_up, f') =
      call-answer s c
        (Fits-mono s.mode s.last_notification_at s.notification_timeout from (time c) l.0 f) in
    ap₂ ◌∷◌ same (triggers-answers (call s c).0 (time c) cs l.1 f' ∙ ap (λ k. answers k cs) kept_up)

-- For calls whose times never go back, a new scheduler triggers just when the contract says: on
-- notifications of the kinds that need it; and on a tick, exactly if the poll interval has gone by
-- since the last poll or notification (in durations that saturate) and the timeout since the last
-- notification, if there were any.
pub triggers-new :
    (poll_interval notification_timeout : ℕ) (cs : List SchedulerCall)
    → AreLater 0 cs
    → triggers (new_scheduler poll_interval notification_timeout) cs
      ≡ answers
          (record {
            poll_interval = poll_interval;
            notification_timeout = notification_timeout;
            last = none;
            free_at = 0;
          })
          cs
unfolding new_scheduler
triggers-new poll_interval notification_timeout cs l =
    triggers-answers (new_scheduler poll_interval notification_timeout) 0 cs l tt
