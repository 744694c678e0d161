-- ===== src/Daemon/Ancs/Supervisor/Connection.antt =====
-- The events that change the connection, and the state that they leave the supervisor in.
use analogconnect.Base.{
  ℕ, ◌≡◌, ◌⊎◌, inl, inr, refl, sym, ap, ◌∙◌, Bool, true, false, List, [], ◌∷◌, ◌++◌, filter,
}
use analogconnect.Daemon.Ancs.Supervisor.{
  AncsSupervisor, SupervisorState, SupervisorEvent, connects, notification_source_subscribes,
  data_source_subscribes, disconnects, notifies, responds, disconnected_state,
  subscribing_notification_source, subscribing_data_source, ready, default_supervisor, connected,
  notification_source_subscribed, data_source_subscribed, disconnected, notification_source,
  data_source, notified, answered, step, run,
}

-- The events that change the connection.
abbrev pub is_connection : SupervisorEvent → Bool
is_connection (notifies value) = false
is_connection (responds value) = false
is_connection event = true

-- The latest of the events that change the connection is the subscription to the data source.
abbrev pub EndsSubscribed : List SupervisorEvent → Type 0
EndsSubscribed events =
    (earlier : List SupervisorEvent) × (filter is_connection events
      ≡ earlier ++ (data_source_subscribes ∷ []))

-- The state in which the sequence of connection events leaves the supervisor.
abbrev left_in : SupervisorState → SupervisorEvent → SupervisorState
left_in state connects = subscribing_notification_source
left_in state notification_source_subscribes = subscribing_data_source
left_in state data_source_subscribes = ready
left_in state disconnects = disconnected_state
left_in state (notifies value) = state
left_in state (responds value) = state

abbrev left_after : SupervisorState → List SupervisorEvent → SupervisorState
left_after state [] = state
left_after state (event ∷ events) = left_after (left_in state event) events

state-notified :
    (s : AncsSupervisor) (value : List ℕ) (state : SupervisorState)
    → (notified s value state).0.state ≡ s.state
state-notified s value ready = refl
state-notified s value disconnected_state = refl
state-notified s value subscribing_notification_source = refl
state-notified s value subscribing_data_source = refl

state-answered :
    (s : AncsSupervisor) (value : List ℕ) (state : SupervisorState)
    → (answered s value state).0.state ≡ s.state
state-answered s value ready = refl
state-answered s value disconnected_state = refl
state-answered s value subscribing_notification_source = refl
state-answered s value subscribing_data_source = refl

state-step :
    (s : AncsSupervisor) (event : SupervisorEvent) → (step s event).0.state ≡ left_in s.state event
unfolding connected notification_source_subscribed data_source_subscribed disconnected
    notification_source data_source
state-step s connects = refl
state-step s notification_source_subscribes = refl
state-step s data_source_subscribes = refl
state-step s disconnects = refl
state-step s (notifies value) = state-notified s value s.state
state-step s (responds value) = state-answered s value s.state

state-run :
    (s : AncsSupervisor) (events : List SupervisorEvent)
    → (run s events).state ≡ left_after s.state events
state-run s [] = refl
state-run s (event ∷ events) =
    state-run (step s event).0 events ∙ ap (λ x. left_after x events) (state-step s event)

-- Ready is only left in from a state of being ready, or by the subscription to the data source.
left_after-ready :
    (state : SupervisorState) (events : List SupervisorEvent)
    → left_after state events ≡ ready
    → ((state ≡ ready) × (filter is_connection events ≡ [])) ⊎ EndsSubscribed events
left_after-ready state [] h = inl (h, refl)
left_after-ready state (notifies value ∷ events) h = left_after-ready state events h
left_after-ready state (responds value ∷ events) h = left_after-ready state events h
left_after-ready state (connects ∷ events) h =
    elim (left_after-ready subscribing_notification_source events h) [
      | inl (e, _) ↦ absurd (cc e)
      | inr (earlier, e) ↦ inr (connects ∷ earlier, ap (◌∷◌ connects) e)
    ]
left_after-ready state (notification_source_subscribes ∷ events) h =
    elim (left_after-ready subscribing_data_source events h) [
      | inl (e, _) ↦ absurd (cc e)
      | inr (earlier, e) ↦
          inr (notification_source_subscribes ∷ earlier, ap (◌∷◌ notification_source_subscribes) e)
    ]
left_after-ready state (data_source_subscribes ∷ events) h =
    elim (left_after-ready ready events h) [
      | inl (_, e) ↦ inr ([], ap (◌∷◌ data_source_subscribes) e)
      | inr (earlier, e) ↦ inr (data_source_subscribes ∷ earlier, ap (◌∷◌ data_source_subscribes) e)
    ]
left_after-ready state (disconnects ∷ events) h =
    elim (left_after-ready disconnected_state events h) [
      | inl (e, _) ↦ absurd (cc e)
      | inr (earlier, e) ↦ inr (disconnects ∷ earlier, ap (◌∷◌ disconnects) e)
    ]

pub run-EndsSubscribed :
    (events : List SupervisorEvent)
    → (run default_supervisor events).state ≡ ready
    → EndsSubscribed events
run-EndsSubscribed events h =
    elim (left_after-ready disconnected_state events
      (sym (state-run default_supervisor events) ∙ h)) [
        | inl (e, _) ↦ absurd (cc e)
        | inr ended ↦ ended
      ]
