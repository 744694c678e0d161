-- ===== src/Daemon/AncsGroups/Apply.antt =====
-- `apply_correlation`: what a result does to the message store, which is an argument: its state, and
-- the three operations of it that are called, each with its result.
use analogconnect.Base.{ℕ, List, [], ◌∷◌, Result, ok, err}
use analogconnect.Base.Text.{Text}
use analogconnect.Daemon.AncsGroups.{CorrelationResult, group, direct_candidate, pending, ambiguous}

pub data GroupAssignmentResult : Type 0 where
  assigned conflicting : GroupAssignmentResult

pub data ApplyCorrelationResult : Type 0 where
  group_assigned direct ambiguous_result identity_conflict : ApplyCorrelationResult

module _ {S E : Type 0} (clear_ancs_ambiguous : S → Text → S × Result (Unit {0}) E)
    (mark_ancs_ambiguous : S → Text → ℕ → S × Result (Unit {0}) E)
    (assign_ancs_group : S
      → Text
      → Text
      → Text
      → Text
      → List ℕ
      → ℕ
      → S × Result GroupAssignmentResult E) where
  -- An operation, and what follows if it succeeds.
  abbrev pub after : {A B : Type 0} → S × Result A E → (S → A → S × Result B E) → S × Result B E
  after (s, ok a) next = next s a
  after (s, err e) next = (s, err e)

  unfoldable pub mark_all : S → List Text → ℕ → S × Result ApplyCorrelationResult E
  mark_all s [] observed = (s, ok ambiguous_result)
  mark_all s (handle ∷ handles) observed =
      after (mark_ancs_ambiguous s handle observed) (λ s' done. mark_all s' handles observed)

  abbrev pub assignment : GroupAssignmentResult → ApplyCorrelationResult
  assignment assigned = group_assigned
  assignment conflicting = identity_conflict

  unfoldable pub apply_correlation : S → CorrelationResult → S × Result ApplyCorrelationResult E
  unfolding mark_all
  apply_correlation s (group handle uid group_id subtitle sender observed) =
      after (assign_ancs_group s handle group_id subtitle sender uid observed)
        (λ s' r. (s', ok (assignment r)))
  apply_correlation s (direct_candidate handle uid) =
      after (clear_ancs_ambiguous s handle) (λ s' done. (s', ok direct))
  apply_correlation s pending = (s, ok ambiguous_result)
  apply_correlation s (ambiguous handles observed) = mark_all s handles observed
