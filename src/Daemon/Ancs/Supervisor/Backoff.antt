-- ===== src/Daemon/Ancs/Supervisor/Backoff.antt =====
-- The delays before the supervisor connects again.
use analogconnect.Base.{ℕ, suc, ◌^◌, min, ◌≡◌, refl, ap, ◌∙◌, List, [], ◌∷◌, arith}
use analogconnect.Daemon.Ancs.Supervisor.{
  AncsSupervisor, SupervisorState, SupervisorEvent, connects, notification_source_subscribes,
  data_source_subscribes, disconnects, notifies, responds, disconnected_state,
  subscribing_notification_source, subscribing_data_source, ready, retry_after_seconds,
  default_supervisor, failed, backoff_connected, connected, notification_source_subscribed,
  data_source_subscribed, disconnected, notification_source, data_source, notified, answered, run,
}

-- How often the connection was lost since it was last complete, from a number of times on.
abbrev pub losses : ℕ → List SupervisorEvent → ℕ
losses n [] = n
losses n (connects ∷ events) = losses n events
losses n (notification_source_subscribes ∷ events) = losses n events
losses n (data_source_subscribes ∷ events) = losses 0 events
losses n (disconnects ∷ events) = losses (suc n) events
losses n (notifies value ∷ events) = losses n events
losses n (responds value ∷ events) = losses n events

backoff-notified :
    (s : AncsSupervisor) (value : List ℕ) (state : SupervisorState)
    → (notified s value state).0.backoff ≡ s.backoff
backoff-notified s value disconnected_state = refl
backoff-notified s value subscribing_notification_source = refl
backoff-notified s value subscribing_data_source = refl
backoff-notified s value ready = refl

backoff-answered :
    (s : AncsSupervisor) (value : List ℕ) (state : SupervisorState)
    → (answered s value state).0.backoff ≡ s.backoff
backoff-answered s value disconnected_state = refl
backoff-answered s value subscribing_notification_source = refl
backoff-answered s value subscribing_data_source = refl
backoff-answered s value ready = refl

failures-run :
    (n : ℕ) (s : AncsSupervisor) (events : List SupervisorEvent)
    → s.backoff.failures ≡ min n 6
    → (run s events).backoff.failures ≡ min (losses n events) 6
unfolding connected notification_source_subscribed data_source_subscribed disconnected
    backoff_connected failed notification_source data_source
failures-run n s [] e = e
failures-run n s (connects ∷ events) e = failures-run n (connected s).0 events e
failures-run n s (notification_source_subscribes ∷ events) e =
    failures-run n (notification_source_subscribed s).0 events e
failures-run n s (data_source_subscribes ∷ events) e =
    failures-run 0 (data_source_subscribed s) events (omega arith)
failures-run n s (disconnects ∷ events) e =
    failures-run (suc n) (disconnected s).0 events (omega arith)
failures-run n s (notifies value ∷ events) e =
    failures-run n (notification_source s value).0 events
      (ap (λ b. b.failures) (backoff-notified s value s.state) ∙ e)
failures-run n s (responds value ∷ events) e =
    failures-run n (data_source s value).0 events
      (ap (λ b. b.failures) (backoff-answered s value s.state) ∙ e)

-- After any events, a lost connection is tried again after 2 ^ n seconds, where n counts the losses
-- since the connection was last complete, this one included, and is at most 6.
pub disconnected-run :
    (events : List SupervisorEvent)
    → (disconnected (run default_supervisor events)).1
      ≡ retry_after_seconds (2 ^ min (suc (losses 0 events)) 6)
unfolding disconnected failed
disconnected-run events =
    let e = failures-run 0 default_supervisor events (omega arith) in
    ap (λ n. retry_after_seconds (2 ^ n)) (omega arith)
