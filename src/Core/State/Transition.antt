-- ===== src/Core/State/Transition.antt =====
-- The error of a refused transition, and the histories of requests that any of the machines serves.
use analogconnect.Base.{String, List, [], ◌∷◌, Bool, Result, ok, err, if◌then◌else◌}

pub record TransitionError : Type 0 where
  pub machine : String
  pub from : String
  pub to : String

-- The tail that every `transition_to` shares: commit the next state, or report and keep the old one.
abbrev pub commit {ℓ} :
    {S : Type ℓ} → Bool → S → S → TransitionError → S × Result (Unit {0}) TransitionError
commit allowed state next error = if allowed then (next, ok tt) else (state, err error)

module _ {S : Type 0} (transition_to : S → S → S × Result (Unit {0}) TransitionError) where
  -- The state after a list of requests; a refused request is skipped by its caller.
  unfoldable pub run : S → List S → S
  run s [] = s
  run s (n ∷ ns) = run (transition_to s n).0 ns

  -- The states passed on the way, the last one included and the first one not.
  unfoldable pub visited : S → List S → List S
  visited s [] = []
  visited s (n ∷ ns) = (transition_to s n).0 ∷ visited (transition_to s n).0 ns

  -- A caller that gives up at the first refusal.
  unfoldable pub run_all : S → List S → Result S TransitionError
  run_all s [] = ok s
  run_all s (n ∷ ns) =
      let (next, outcome) = transition_to s n in
      elim outcome [ ok _ ↦ run_all next ns | err e ↦ err e ]
