-- ===== src/Daemon/Auth/Windows.antt =====
-- How many mutations `MutationLimiter` accepts within a span of time, and which texts `AuthTokens` matches.
use analogconnect.Base.{
  ℕ, suc, ◌+◌, ◌-◌, ◌*◌, ◌≤◌, ◌<◌, ◌≡◌, ◌⊎◌, inl, inr, refl, ◌∙◌, true, false, List, [], ◌∷◌, arith,
  ltb, leb, if◌then◌else◌, Bool-cases,
}
use analogconnect.Daemon.Auth.{MutationLimiter, new_limiter, allow_at, u32_max}

-- How many of the calls at some times, all before an end, are accepted.
abbrev pub accepted_count : MutationLimiter → List ℕ → ℕ
accepted_count l [] = 0
accepted_count l (now ∷ times) =
    let rest = accepted_count (allow_at l now).0 times in
    if (allow_at l now).1 then suc rest else rest

-- The times are at least `from` and less than `end`.
abbrev pub AreWithin : ℕ → ℕ → List ℕ → Type 0
AreWithin from end [] = Unit {0}
AreWithin from end (now ∷ times) = (from ≤ now) × (now < end) × AreWithin from end times

AreWithin-mono :
    (from end from' end' : ℕ) (times : List ℕ)
    → from' ≤ from
    → end ≤ end'
    → AreWithin from end times
    → AreWithin from' end' times
AreWithin-mono from end from' end' [] a b w = tt
AreWithin-mono from end from' end' (now ∷ times) a b w =
    (omega arith, omega arith, AreWithin-mono from end from' end' times a b w.2)

record IsLimiter (l : MutationLimiter) : Type 0 where
  small : l.maximum ≤ u32_max
  within : l.accepted ≤ l.maximum

allow_at-IsLimiter :
    (l : MutationLimiter) (now : ℕ)
    → IsLimiter l
    → IsLimiter (allow_at l now).0
      × ((allow_at l now).0.maximum ≡ l.maximum)
      × ((allow_at l now).0.window ≡ l.window)
unfolding allow_at
allow_at-IsLimiter l now v = ground arith

-- One call at a time that is within the window.
allow_at-inside :
    (l : MutationLimiter) (now : ℕ)
    → IsLimiter l
    → now < l.started_at + l.window
    → 0 < l.window
    → ((l.accepted ≡ l.maximum) × (allow_at l now ≡ (l, false)))
      ⊎ ((l.accepted < l.maximum)
          × (allow_at l now ≡ (record l { accepted = suc l.accepted }, true)))
unfolding allow_at
allow_at-inside l now v before wide =
    let young : leb l.window (now - l.started_at) ≡ false = ground arith in ground arith

-- Within the present window only as many are accepted as are left.
accepted_count-inside :
    (l : MutationLimiter) (from : ℕ) (times : List ℕ)
    → IsLimiter l
    → AreWithin from (l.started_at + l.window) times
    → 0 < l.window
    → accepted_count l times + l.accepted ≤ l.maximum
accepted_count-inside l from [] v within wide = omega (arith, v.within)
accepted_count-inside l from (now ∷ times) v within wide =
    elim (allow_at-inside l now v within.1 wide) [
      | inl (full, e) ↦ rw e (accepted_count-inside l from times v within.2 wide)
      | inr (room, e) ↦
          let l' = record l { accepted = suc l.accepted } in
          let v' : IsLimiter l' = record { small = v.small; within = room } in
          rw e (omega (arith, accepted_count-inside l' from times v' within.2 wide))
    ]

allow_at-renewed :
    (l : MutationLimiter) (now : ℕ)
    → 0 < l.window
    → l.started_at + l.window ≤ now
    → allow_at l now ≡ allow_at (record l { started_at = now; accepted = 0 }) now
unfolding allow_at
allow_at-renewed l now wide over =
    let over' : leb l.window (now - l.started_at) ≡ true = ground arith in
    let young : leb l.window (now - now) ≡ false = ground arith in rw (over', young) refl

-- A span no longer than the window meets at most one renewal.
accepted_count-span :
    (l : MutationLimiter) (from : ℕ) (times : List ℕ)
    → IsLimiter l
    → 0 < l.window
    → AreWithin from (from + l.window) times
    → accepted_count l times + l.accepted ≤ 2 * l.maximum
accepted_count-span l from [] v wide within = omega (arith, v.within)
accepted_count-span l from (now ∷ times) v wide within =
    elim (Bool-cases (ltb now (l.started_at + l.window))) [
      | inl t ↦ elim (allow_at-inside l now v (ground arith) wide) [
        | inl (full, e) ↦ rw e (accepted_count-span l from times v wide within.2)
        | inr (room, e) ↦
            let l' = record l { accepted = suc l.accepted } in
            let v' : IsLimiter l' = record { small = v.small; within = room } in
            rw e (omega (arith, accepted_count-span l' from times v' wide within.2))
      ]
      | inr f ↦
          let l' = record l { started_at = now; accepted = 0 } in
          let v' : IsLimiter l' = record { small = v.small; within = omega arith } in
          let fresh =
            accepted_count-inside l' from (now ∷ times) v'
              (
                within.0,
                omega arith,
                AreWithin-mono from (from + l.window) from (now + l.window) times (omega arith)
                    (omega (arith, within.0)) within.2,
              )
              wide in
          rw (allow_at-renewed l now wide (ground arith)) (omega (arith, fresh, v.within))
    ]

-- The limiter after calls at some times.
abbrev pub after : MutationLimiter → List ℕ → MutationLimiter
after l [] = l
after l (now ∷ times) = after (allow_at l now).0 times

after-IsLimiter :
    (l : MutationLimiter) (past : List ℕ)
    → IsLimiter l
    → IsLimiter (after l past)
      × ((after l past).maximum ≡ l.maximum)
      × ((after l past).window ≡ l.window)
after-IsLimiter l [] v = (v, refl, refl)
after-IsLimiter l (now ∷ past) v =
    let (v', m, w) = allow_at-IsLimiter l now v in
    let (v'', m', w') = after-IsLimiter (allow_at l now).0 past v' in (v'', m' ∙ m, w' ∙ w)

-- A limiter is made with a maximum that a `u32` holds and a window that is not empty. Whatever calls
-- it has seen before, of the calls in any span of time as long as its window it accepts at most
-- twice the maximum.
pub accepted_count-new :
    (maximum window start from : ℕ) (past times : List ℕ)
    → maximum ≤ u32_max
    → 0 < window
    → AreWithin from (from + window) times
    → accepted_count (after (new_limiter maximum window start) past) times ≤ 2 * maximum
unfolding new_limiter
accepted_count-new maximum window start from past times small wide within =
    let l = new_limiter maximum window start in
    let v : IsLimiter l = record { small = small; within = omega arith } in
    let (v', m, w) = after-IsLimiter l past v in
    let span =
      AreWithin-mono from (from + window) from (from + (after l past).window) times (omega arith)
        (omega (arith, w)) within in
    omega (arith, m, accepted_count-span (after l past) from times v' (omega (arith, w)) span)
