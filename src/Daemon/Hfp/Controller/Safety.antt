-- ===== src/Daemon/Hfp/Controller/Safety.antt =====
-- `CallController::execute` on every command and state: what it asks of the backend and what it keeps.
use analogconnect.Base.{
  ◌≡◌, ◌≢◌, refl, ◌⊎◌, inl, inr, Bool, true, false, Option, none, some, Result, ok, err, arith,
  Bool-cases, Option-cases,
}
use analogconnect.Core.State.Call
use analogconnect.Core.State.Call.{CallState, idle, incoming, outgoing, active, held, ended}
use analogconnect.Core.Hfp.{CallCommand}
use analogconnect.Daemon.Hfp.Controller.{
  CallControlError, invalid_state, backend_failed, next_state, settle, execute,
}

-- Whatever `next_state` names, `CallState::transition_to` allows.
next_state_allowed :
    (s : CallState) (command : CallCommand) {n : CallState}
    → next_state s command ≡ some (some n)
    → Call.transition_to s n ≡ (n, ok tt)
unfolding next_state Call.transition_to
next_state_allowed s command h = ground arith

-- The three ways a command can end, told apart by the guard and by the backend's answer.
pub data Outcome {B : Type 0} (backend : B → CallCommand → B × Bool) (b : B) (s : CallState)
    (command : CallCommand) : (B × CallState) × Result CallState CallControlError → Type 0 where
  refused : next_state s command ≡ none → Outcome backend b s command ((b, s), err invalid_state)
  failed :
      next_state s command ≢ none
      → (backend b command).1 ≡ false
      → Outcome backend b s command (((backend b command).0, s), err backend_failed)
  done :
      (s' : CallState)
      → (next_state s command ≡ some none) × (s' ≡ s) ⊎ (next_state s command ≡ some (some s'))
      → (backend b command).1 ≡ true
      → Outcome backend b s command (((backend b command).0, s'), ok s')

settle_allowed :
    {B : Type 0} (backend : B → CallCommand → B × Bool) (b : B) (s n : CallState)
    → Call.transition_to s n ≡ (n, ok tt)
    → settle backend b s (some n) ≡ ((b, n), ok n)
unfolding settle
settle_allowed backend b s n h = ground arith

settled :
    {B : Type 0} (backend : B → CallCommand → B × Bool) (b : B) (s : CallState)
    (command : CallCommand) (next : Option CallState)
    → next_state s command ≡ some next
    → (backend b command).1 ≡ true
    → Outcome backend b s command (settle backend (backend b command).0 s next)
unfolding settle
settled backend b s command none e t = done s (inl (e, refl)) t
settled backend b s command (some n) e t =
    rw (settle_allowed backend (backend b command).0 s n (next_state_allowed s command e))
      (done n (inr e) t)

-- Every command ends in one of three ways. It is refused as invalid with the backend not asked and
-- nothing changed; or the backend was asked once and failed, and the call state is unchanged; or
-- the backend succeeded, and the state kept and reported is the one that `next_state` names (the
-- old one where it names none). So no command that reached the backend is reported as invalid.
pub execute-Outcome :
    {B : Type 0} (backend : B → CallCommand → B × Bool) (b : B) (s : CallState)
    (command : CallCommand)
    → Outcome backend b s command (execute backend (b, s) command)
unfolding execute
execute-Outcome backend b s command = elim (Option-cases (next_state s command)) [
  | inl e ↦ rw (e, execute) (refused e)
  | inr (next, e) ↦ elim (Bool-cases (backend b command).1) [
    | inl t ↦ rw (e, t, execute) (settled backend b s command next e t)
    | inr f ↦ rw (e, f, execute) (failed (λ e'. cc) f)
  ]
]
