-- ===== src/Tests/MessageTests.antt =====
-- crates/analogconnectd/src/messages.rs.
use analogconnect.Base.{
  ℕ, ◌+◌, ◌*◌, ◌≡◌, ◌↔◌, refl, Bool, true, false, Option, none, some, List, [], ◌∷◌, newest,
  replicate, map, arith,
}
use analogconnect.Base.Text.{Text, chars, same, member}
use analogconnect.Daemon.Messages.Operations.{
  OperationEvent, begins, ends, accepted_duplicate, new_registry, begin_operation, expire, accept,
  fail, run, step,
}
use analogconnect.Base.Distinct.{Distinct}
use analogconnect.Daemon.Messages.Operations.Remembered.{begin_operation-run}
use analogconnect.Daemon.Messages.Scheduler.{
  notification_trigger, poll_trigger, new_scheduler, notice, tick, fall_back, poll_if_due,
  from_wire_name, requires_sync,
}
use analogconnect.Daemon.Messages.Scheduler.Modeless.{
  SchedulerCall, notices, ticks, triggers, triggers-new,
}
use analogconnect.Daemon.Messages.Coordinator.{start}
use analogconnect.Daemon.Messages.Coordinator.Recorded.{
  coordinate_all, coordinate_all-start, asked, failures, NonePoisoned, IsResting,
}

abbrev id_of : ℕ → Text
id_of n = replicate 32 (48 + n)

-- Three messages are sent, one of them after a failure, and one is tried again while it is in flight.
abbrev events : List OperationEvent
events =
    begins (id_of 1)
    ∷ begins (id_of 2)
    ∷ begins (id_of 1)
    ∷ ends (id_of 1) true
    ∷ ends (id_of 2) false
    ∷ begins (id_of 2)
    ∷ ends (id_of 2) true
    ∷ begins (id_of 3)
    ∷ ends (id_of 3) true
    ∷ []

sent_log : (run (new_registry 2, []) events).1 ≡ id_of 1 ∷ id_of 2 ∷ id_of 3 ∷ []
unfolding run step new_registry begin_operation accept fail expire member same
sent_log = refl

begin_operation-run_example :
    (((begin_operation (run (new_registry 2, []) events).0 (id_of 1)).1 ≡ accepted_duplicate)
      ↔ (member (id_of 1) (newest 2 (run (new_registry 2, []) events).1) ≡ true))
    × Distinct (newest 2 (run (new_registry 2, []) events).1)
begin_operation-run_example = begin_operation-run 2 events (id_of 1) (omega arith)

abbrev second : ℕ
second = 1000000000

-- A poll at once, a notification, a tick that it keeps from polling, and one after the timeout.
abbrev calls : List SchedulerCall
calls =
    ticks second
    ∷ notices (2 * second) (chars "NewMessage")
    ∷ ticks (70 * second)
    ∷ ticks (130 * second)
    ∷ []

calls-triggers :
    triggers (new_scheduler (60 * second) (120 * second)) calls
    ≡ some poll_trigger ∷ some notification_trigger ∷ none ∷ some poll_trigger ∷ []
unfolding new_scheduler notice tick fall_back poll_if_due from_wire_name requires_sync same
calls-triggers = refl

triggers-new_example :
    triggers (new_scheduler (60 * second) (120 * second)) calls
    ≡ some poll_trigger ∷ some notification_trigger ∷ none ∷ some poll_trigger ∷ []
unfolding from_wire_name requires_sync same
triggers-new_example =
    triggers-new (60 * second) (120 * second) calls
      (omega arith, (omega arith, (omega arith, (omega arith, tt))))

-- A backend that fails at every second synchronisation.
abbrev flaky : Bool → Bool × Bool
flaky true = (false, true)
flaky false = (true, false)

abbrev timed : List (SchedulerCall × Option ℕ)
timed = map (λ c. (c, some 1700000000)) calls

coordinate_all-start_example :
    (let (c, reports) =
        coordinate_all flaky (start true (new_scheduler (60 * second) (120 * second))) timed in
      (c.summary.successful_syncs + c.summary.failed_syncs
        ≡ asked (triggers (new_scheduler (60 * second) (120 * second)) (map (λ d. d.0) timed)))
      × (c.summary.failed_syncs ≡ failures reports)
      × NonePoisoned reports
      × IsResting c.summary.state)
coordinate_all-start_example =
    coordinate_all-start flaky true (new_scheduler (60 * second) (120 * second)) timed (omega arith)
