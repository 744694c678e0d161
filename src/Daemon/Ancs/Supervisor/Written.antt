-- ===== src/Daemon/Ancs/Supervisor/Written.antt =====
-- When the supervisor writes to the control point.
use analogconnect.Base.{ℕ, arith, ◌≡◌, refl, List, [], ◌∷◌, Option, none, some}
use analogconnect.Daemon.Ancs.Protocol.Replay.{
  IsConsumer, default_consumer-IsConsumer, notification_source-IsConsumer, data_source-IsConsumer,
}
use analogconnect.Daemon.Ancs.Protocol.Requests
use analogconnect.Daemon.Ancs.Protocol.Requests.{IsNewRequest, step-request}
use analogconnect.Daemon.Ancs.Supervisor.{
  AncsSupervisor, SupervisorState, SupervisorEvent, connects, notification_source_subscribes,
  data_source_subscribes, disconnects, notifies, responds, disconnected_state,
  subscribing_notification_source, subscribing_data_source, ready, write_control_point,
  default_supervisor, connected, notification_source_subscribed, data_source_subscribed,
  disconnected, notification_source, data_source, notified, answered, written, step, run,
}
use analogconnect.Daemon.Ancs.Supervisor.Connection.{EndsSubscribed, run-EndsSubscribed}

notified-IsConsumer :
    (s : AncsSupervisor) (value : List ℕ) (state : SupervisorState)
    → IsConsumer s.protocol
    → IsConsumer (notified s value state).0.protocol
notified-IsConsumer s value disconnected_state v = v
notified-IsConsumer s value subscribing_notification_source v = v
notified-IsConsumer s value subscribing_data_source v = v
notified-IsConsumer s value ready v = notification_source-IsConsumer s.protocol value v

answered-IsConsumer :
    (s : AncsSupervisor) (value : List ℕ) (state : SupervisorState)
    → IsConsumer s.protocol
    → IsConsumer (answered s value state).0.protocol
answered-IsConsumer s value disconnected_state v = v
answered-IsConsumer s value subscribing_notification_source v = v
answered-IsConsumer s value subscribing_data_source v = v
answered-IsConsumer s value ready v = data_source-IsConsumer s.protocol value v

step-IsConsumer :
    (s : AncsSupervisor) (event : SupervisorEvent)
    → IsConsumer s.protocol
    → IsConsumer (step s event).0.protocol
unfolding connected notification_source_subscribed data_source_subscribed disconnected
    notification_source data_source
step-IsConsumer s connects v = default_consumer-IsConsumer
step-IsConsumer s notification_source_subscribes v = v
step-IsConsumer s data_source_subscribes v = v
step-IsConsumer s disconnects v = default_consumer-IsConsumer
step-IsConsumer s (notifies value) v = notified-IsConsumer s value s.state v
step-IsConsumer s (responds value) v = answered-IsConsumer s value s.state v

supervised :
    (s : AncsSupervisor) (events : List SupervisorEvent)
    → IsConsumer s.protocol
    → IsConsumer (run s events).protocol
supervised s [] v = v
supervised s (event ∷ events) v = supervised (step s event).0 events (step-IsConsumer s event v)

-- A write, of a new request, while the data source is subscribed.
pub record IsWrite (events : List SupervisorEvent) (before after : AncsSupervisor)
    (request : List ℕ) : Type 0 where
  pub subscribed : EndsSubscribed events
  pub new_request : (uid : List ℕ) × IsNewRequest before.protocol after.protocol request uid

-- A write of a new request, in the state of being ready.
record IsReadyWrite (before after : AncsSupervisor) (request : List ℕ) : Type 0 where
  when_ready : before.state ≡ ready
  new_request : (uid : List ℕ) × IsNewRequest before.protocol after.protocol request uid

written-request :
    (made : Option (List ℕ)) {request : List ℕ}
    → written made ≡ some (write_control_point request)
    → made ≡ some request
written-request none h = absurd (cc h)
written-request (some made) h = ground arith

-- In a state, an event of the sources.
notified-IsWrite :
    (s : AncsSupervisor) (value : List ℕ) (state : SupervisorState) {request : List ℕ}
    → IsConsumer s.protocol
    → s.state ≡ state
    → (notified s value state).1 ≡ some (write_control_point request)
    → IsReadyWrite s (notified s value state).0 request
notified-IsWrite s value disconnected_state v e h = absurd (cc h)
notified-IsWrite s value subscribing_notification_source v e h = absurd (cc h)
notified-IsWrite s value subscribing_data_source v e h = absurd (cc h)
notified-IsWrite s value ready {request = request} v e h = record {
  when_ready = e;
  new_request = step-request s.protocol (Requests.notices value) request v (written-request _ h);
}

answered-IsWrite :
    (s : AncsSupervisor) (value : List ℕ) (state : SupervisorState) {request : List ℕ}
    → IsConsumer s.protocol
    → s.state ≡ state
    → (answered s value state).2 ≡ some (write_control_point request)
    → IsReadyWrite s (answered s value state).0 request
answered-IsWrite s value disconnected_state v e h = absurd (cc h)
answered-IsWrite s value subscribing_notification_source v e h = absurd (cc h)
answered-IsWrite s value subscribing_data_source v e h = absurd (cc h)
answered-IsWrite s value ready {request = request} v e h = record {
  when_ready = e;
  new_request = step-request s.protocol (Requests.responds value) request v (written-request _ h);
}

step-IsWrite :
    (s : AncsSupervisor) (event : SupervisorEvent) (request : List ℕ)
    → IsConsumer s.protocol
    → (step s event).1 ≡ some (write_control_point request)
    → IsReadyWrite s (step s event).0 request
unfolding connected notification_source_subscribed disconnected notification_source data_source
step-IsWrite s connects request v h = absurd (ground arith)
step-IsWrite s notification_source_subscribes request v h = absurd (ground arith)
step-IsWrite s data_source_subscribes request v h = absurd (cc h)
step-IsWrite s disconnects request v h = absurd (ground arith)
step-IsWrite s (notifies value) request v h = notified-IsWrite s value s.state v refl h
step-IsWrite s (responds value) request v h = answered-IsWrite s value s.state v refl h

-- After any events from the bearer, whatever comes next: if the supervisor then writes to the control
-- point, the latest of the events that change the connection (to connect, to subscribe either source,
-- to disconnect) is the subscription to the data source, the last of the steps that it commands; and
-- what it writes is the attribute request of a notification that is pending from now on, and that was
-- neither pending before nor among the completed ones remembered since the connection was made.
pub run-IsWrite :
    (events : List SupervisorEvent) (event : SupervisorEvent) (request : List ℕ)
    → (step (run default_supervisor events) event).1 ≡ some (write_control_point request)
    → IsWrite events
        (run default_supervisor events)
        (step (run default_supervisor events) event).0
        request
run-IsWrite events event request h =
    let w =
      step-IsWrite (run default_supervisor events) event request
        (supervised default_supervisor events default_consumer-IsConsumer) h in
    record { subscribed = run-EndsSubscribed events w.when_ready; new_request = w.new_request }
