-- ===== src/Daemon/Audio/Watchdog/Onset.antt =====
-- Sequences of samples that `ScoTeardownWatchdog` observes.
use analogconnect.Base.{
  ℕ, ◌-◌, ◌≡◌, refl, ap, ◌∙◌, Bool, true, none, some, List, [], ◌∷◌, ◌++◌, all, leb, arith, not,
  if◌then◌else◌,
}
use analogconnect.Core.State.Call.{CallState}
use analogconnect.Core.State.AudioTransport.{AudioTransportState, error, sco_tearing_down}
use analogconnect.Daemon.Audio.Watchdog.{
  get_or_insert, ScoTeardownObservation, ScoTeardownWatchdog, is_inconsistent, new, observe,
}

pub record Sample : Type 0 where
  pub call : CallState
  pub audio : AudioTransportState
  pub now : ℕ

abbrev pub observe_all : ScoTeardownWatchdog → List Sample → ScoTeardownWatchdog
observe_all w [] = w
observe_all w (s ∷ ss) = observe_all (observe w s.call s.audio s.now).0 ss

abbrev pub inconsistent : Sample → Bool
inconsistent s = is_inconsistent s.call s.audio

since-run :
    (w : ScoTeardownWatchdog) (t : ℕ) (ss : List Sample)
    → all inconsistent ss ≡ true
    → w.inconsistent_since ≡ some t
    → (observe_all w ss).inconsistent_since ≡ some t
unfolding observe
since-run w t [] h e = e
since-run w t (s ∷ ss) h e =
    since-run (observe w s.call s.audio s.now).0 t ss (ground arith) (ground arith)

grace_period-observe_all :
    (w : ScoTeardownWatchdog) (ss : List Sample) → (observe_all w ss).grace_period ≡ w.grace_period
unfolding observe
grace_period-observe_all w [] = refl
grace_period-observe_all w (s ∷ ss) =
    grace_period-observe_all (observe w s.call s.audio s.now).0 ss ∙ ground arith

observe_all-append :
    (w : ScoTeardownWatchdog) (ss ts : List Sample)
    → observe_all w (ss ++ ts) ≡ observe_all (observe_all w ss) ts
observe_all-append w [] ts = refl
observe_all-append w (s ∷ ss) ts = observe_all-append (observe w s.call s.audio s.now).0 ss ts

-- There is no inconsistent sample at the end of the list.
abbrev pub is_calm : List Sample → Bool
is_calm [] = true
is_calm (s ∷ []) = not (inconsistent s)
is_calm (s ∷ t ∷ ss) = is_calm (t ∷ ss)

since-calm_cons :
    (w : ScoTeardownWatchdog) (s : Sample) (ss : List Sample)
    → is_calm (s ∷ ss) ≡ true
    → (observe_all w (s ∷ ss)).inconsistent_since ≡ none
unfolding observe
since-calm_cons w s [] h = ground arith
since-calm_cons w s (t ∷ ss) h = since-calm_cons (observe w s.call s.audio s.now).0 t ss h

since-calm :
    (grace_period : ℕ) (ss : List Sample)
    → is_calm ss ≡ true
    → (observe_all (new grace_period) ss).inconsistent_since ≡ none
unfolding new
since-calm grace_period [] h = refl
since-calm grace_period (s ∷ ss) h = since-calm_cons (new grace_period) s ss h

-- The time of the first of the samples, else the time given.
abbrev pub onset : List Sample → ℕ → ℕ
onset [] now = now
onset (s ∷ ss) now = s.now

since-onset :
    (w : ScoTeardownWatchdog) (ss : List Sample) (now : ℕ)
    → all inconsistent ss ≡ true
    → w.inconsistent_since ≡ none
    → get_or_insert (observe_all w ss).inconsistent_since now ≡ onset ss now
unfolding observe
since-onset w [] now h e = rw e
since-onset w (s ∷ ss) now h e =
    let started : (observe w s.call s.audio s.now).0.inconsistent_since ≡ some s.now =
      ground arith in
    rw (since-run (observe w s.call s.audio s.now).0 s.now ss (ground arith) started)

grace_period-new :
    (grace_period : ℕ) (ss : List Sample)
    → (observe_all (new grace_period) ss).grace_period ≡ grace_period
unfolding new
grace_period-new grace_period ss = grace_period-observe_all (new grace_period) ss

abbrev pub judged : ℕ → ℕ → ScoTeardownObservation
judged grace_period age =
    let stalled = leb grace_period age in
    record { state = if stalled then error else sco_tearing_down; stalled = stalled }

judged_since :
    (w : ScoTeardownWatchdog) (s : Sample) (since : ℕ)
    → inconsistent s ≡ true
    → get_or_insert w.inconsistent_since s.now ≡ since
    → (observe w s.call s.audio s.now).1 ≡ judged w.grace_period (s.now - since)
unfolding observe
judged_since w s since bad e = rw (bad, e) refl

-- A watchdog that has seen a past whose last sample, if any, is consistent, and after it an
-- unbroken run of inconsistent ones, judges a further inconsistent sample by the time since that
-- run began: it reports an error, as stalled, if the grace period is over, and a teardown else.
pub observe-onset :
    (grace_period : ℕ) (past ss : List Sample) (s : Sample)
    → is_calm past ≡ true
    → all inconsistent ss ≡ true
    → inconsistent s ≡ true
    → (observe (observe_all (new grace_period) (past ++ ss)) s.call s.audio s.now).1
      ≡ judged grace_period (s.now - onset ss s.now)
observe-onset grace_period past ss s calm run bad =
    let w = observe_all (new grace_period) past in
    let since = since-onset w ss s.now run (since-calm grace_period past calm) in
    rw (observe_all-append (new grace_period) past ss) (
      judged_since (observe_all w ss) s (onset ss s.now) bad since
      ∙ ap (λ g. judged g (s.now - onset ss s.now))
          (grace_period-observe_all w ss ∙ grace_period-new grace_period past))
