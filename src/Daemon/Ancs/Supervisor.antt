-- ===== src/Daemon/Ancs/Supervisor.antt =====
-- `AncsSupervisor` and `ReconnectBackoff`: the life of a connection to the notification service.
pub mod Backoff
pub mod Connection
pub mod Written
use analogconnect.Base.{ℕ, suc, ◌+◌, ◌^◌, min, Option, none, some, List, [], ◌∷◌}
use analogconnect.Daemon.Ancs.Protocol
use analogconnect.Daemon.Ancs.Protocol.{
  AncsNotificationMetadata, AncsProtocolConsumer, default_consumer,
}

pub record ReconnectBackoff : Type 0 where
  pub failures : ℕ

abbrev pub new_backoff : ReconnectBackoff
new_backoff = record { failures = 0 }

unfoldable pub backoff_connected : ReconnectBackoff → ReconnectBackoff
backoff_connected b = record b { failures = 0 }

-- `u8::saturating_add`, and the shift of a `u64` by what it gives.
unfoldable pub failed : ReconnectBackoff → ReconnectBackoff × ℕ
failed b =
    let failures = min (min (b.failures + 1) 255) 6 in
    (record b { failures = failures }, 2 ^ failures)

pub data SupervisorCommand : Type 0 where
  connect : SupervisorCommand
  subscribe_notification_source : SupervisorCommand
  subscribe_data_source : SupervisorCommand
  write_control_point : List ℕ → SupervisorCommand
  retry_after_seconds : ℕ → SupervisorCommand

pub data SupervisorState : Type 0 where
  disconnected_state subscribing_notification_source subscribing_data_source ready : SupervisorState

pub record AncsSupervisor : Type 0 where
  pub state : SupervisorState
  pub protocol : AncsProtocolConsumer
  pub backoff : ReconnectBackoff

abbrev pub default_supervisor : AncsSupervisor
default_supervisor = record {
  state = disconnected_state;
  protocol = default_consumer;
  backoff = new_backoff;
}

abbrev pub start : AncsSupervisor → SupervisorCommand
start s = connect

unfoldable pub connected : AncsSupervisor → AncsSupervisor × SupervisorCommand
connected s = (
  record s { protocol = default_consumer; state = subscribing_notification_source },
  subscribe_notification_source,
)

unfoldable pub notification_source_subscribed : AncsSupervisor → AncsSupervisor × SupervisorCommand
notification_source_subscribed s =
    (record s { state = subscribing_data_source }, subscribe_data_source)

unfoldable pub data_source_subscribed : AncsSupervisor → AncsSupervisor
unfolding backoff_connected
data_source_subscribed s = record s { state = ready; backoff = backoff_connected s.backoff }

unfoldable pub disconnected : AncsSupervisor → AncsSupervisor × SupervisorCommand
unfolding failed
disconnected s =
    let (backoff, seconds) = failed s.backoff in
    (
      record s { state = disconnected_state; protocol = default_consumer; backoff = backoff },
      retry_after_seconds seconds,
    )

abbrev pub written : Option (List ℕ) → Option SupervisorCommand
written none = none
written (some request) = some (write_control_point request)

abbrev pub notified :
    AncsSupervisor → List ℕ → SupervisorState → AncsSupervisor × Option SupervisorCommand
notified s value ready =
    let (protocol, request) = Protocol.notification_source s.protocol value in
    (record s { protocol = protocol }, written request)
notified s value _ = (s, none)

unfoldable pub notification_source :
    AncsSupervisor → List ℕ → AncsSupervisor × Option SupervisorCommand
notification_source s value = notified s value s.state

abbrev pub answered :
    AncsSupervisor
    → List ℕ
    → SupervisorState
    → AncsSupervisor × Option AncsNotificationMetadata × Option SupervisorCommand
answered s value ready =
    let (protocol, metadata, request) = Protocol.data_source s.protocol value in
    (record s { protocol = protocol }, metadata, written request)
answered s value _ = (s, none, none)

unfoldable pub data_source :
    AncsSupervisor
    → List ℕ
    → AncsSupervisor × Option AncsNotificationMetadata × Option SupervisorCommand
data_source s value = answered s value s.state

-- What the bearer reports.
pub data SupervisorEvent : Type 0 where
  connects notification_source_subscribes data_source_subscribes disconnects : SupervisorEvent
  notifies : List ℕ → SupervisorEvent
  responds : List ℕ → SupervisorEvent

abbrev pub step : AncsSupervisor → SupervisorEvent → AncsSupervisor × Option SupervisorCommand
step s connects = let (s', command) = connected s in (s', some command)
step s notification_source_subscribes =
    let (s', command) = notification_source_subscribed s in (s', some command)
step s data_source_subscribes = (data_source_subscribed s, none)
step s disconnects = let (s', command) = disconnected s in (s', some command)
step s (notifies value) = notification_source s value
step s (responds value) = let (s', metadata, command) = data_source s value in (s', command)

abbrev pub run : AncsSupervisor → List SupervisorEvent → AncsSupervisor
run s [] = s
run s (event ∷ events) = run (step s event).0 events
