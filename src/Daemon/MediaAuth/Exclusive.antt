-- ===== src/Daemon/MediaAuth/Exclusive.antt =====
-- The leases of `MediaSessionRegistry` that are active, through any sequence of its operations.
use analogconnect.Base.{
  ℕ, ◌≤◌, ◌<◌, ◌≡◌, refl, Bool, true, false, Option, none, some, List, [], ◌∷◌, length, contains,
  filter, arith, inl, inr, Bool-cases, Option-cases, ok, err, Result-cases, ==_refl, ap, ◌⊎◌,
}
use analogconnect.Base.Text.{Text}
use analogconnect.Daemon.Hex.{decode_hex}
use analogconnect.Daemon.MediaAuth.{
  unauthorized, Enrollment, session_id_bytes, Registry, Grant, ActiveSession, Call, issues, claims,
  revokes, drops, without, is_active, empty_registry, issue_grant, replace, issue, claim_grant,
  claim, revoke, drop_lease, lend, give_back, step, run,
}

abbrev Distinct : List ℕ → Type 0
Distinct [] = Unit {0}
Distinct (x ∷ xs) = (contains x xs ≡ false) × Distinct xs

abbrev pub current : Option ActiveSession → Option ℕ
current none = none
current (some session) = some session.grant

record IsValid (w : Registry) : Type 0 where
  live : (i : ℕ) → (w.grants i).revoked ≡ false → current w.active ≡ some i
  old : (i : ℕ) → current w.active ≡ some i → i < w.next
  held_old : (i : ℕ) → contains i w.held ≡ true → i < w.next
  held_claimed : (i : ℕ) → contains i w.held ≡ true → (w.grants i).claimed ≡ true
  distinct : Distinct w.held

contains-without : (i j : ℕ) (xs : List ℕ) → contains j (without i xs) ≡ true → contains j xs ≡ true
contains-without i j [] h = h
contains-without i j (x ∷ xs) h = ground (arith, contains-without i j xs)

gone : (i : ℕ) (xs : List ℕ) → Distinct xs → contains i (without i xs) ≡ false
gone i [] d = refl
gone i (x ∷ xs) d = ground (arith, gone i xs d.1)

without-Distinct : (i : ℕ) (xs : List ℕ) → Distinct xs → Distinct (without i xs)
without-Distinct i [] d = tt
without-Distinct i (x ∷ xs) d = ground (arith, without-Distinct i xs d.1, contains-without i x xs)

empty-IsValid : IsValid empty_registry
empty-IsValid = record {
  live = λ i h. absurd (ground arith);
  old = λ i h. absurd (ground arith);
  held_old = λ i h. absurd (ground arith);
  held_claimed = λ i h. absurd (ground arith);
  distinct = tt;
}

replace-IsValid :
    (w : Registry) (session_id : List ℕ) (grant : Grant)
    → grant.revoked ≡ false
    → IsValid w
    → IsValid (replace w session_id grant)
unfolding replace
replace-IsValid w session_id grant fresh v = record {
  live = λ i h. ground (arith, v.live i);
  old = λ i h. ground arith;
  held_old = λ i h. ground (arith, v.held_old i h);
  held_claimed = λ i h. ground (arith, v.held_old i h, v.held_claimed i h);
  distinct = v.distinct;
}

lend-IsValid :
    (w : Registry) (i : ℕ)
    → i < w.next
    → (w.grants i).claimed ≡ false
    → IsValid w
    → IsValid (lend w i)
lend-IsValid w i small free v = record {
  live = λ j h. ground (arith, v.live j);
  old = v.old;
  held_old = λ j h. ground (arith, v.held_old j);
  held_claimed = λ j h. ground (arith, v.held_claimed j);
  distinct = (ground (arith, v.held_claimed i), v.distinct);
}

claim_grant-IsValid :
    (w : Registry) (i : ℕ) (presented : Text) (now : ℕ)
    → i < w.next
    → IsValid w
    → IsValid (claim_grant w i presented now).0
unfolding claim_grant
claim_grant-IsValid w i presented now small v = ground (arith, lend-IsValid w i small)

give_back-IsValid : (w : Registry) (i : ℕ) → IsValid w → IsValid (give_back w i)
give_back-IsValid w i v = record {
  live = λ j h. ground (arith, v.live j);
  old = v.old;
  held_old = λ j h. v.held_old j (contains-without i j w.held h);
  held_claimed = λ j h.
      ground (arith, v.held_claimed j (contains-without i j w.held h), gone i w.held v.distinct);
  distinct = without-Distinct i w.held v.distinct;
}

drop_lease-IsValid : (w : Registry) (i : ℕ) → IsValid w → IsValid (drop_lease w i)
unfolding drop_lease
drop_lease-IsValid w i v = ground (arith, give_back-IsValid w i v)

revoke-IsValid : (w : Registry) (session_id : Text) → IsValid w → IsValid (revoke w session_id).0
unfolding revoke
revoke-IsValid w session_id v = record {
  live = λ i h. ground (arith, v.live i);
  old = λ i h. ground (arith, v.old i);
  held_old = λ i h. ground (arith, v.held_old i);
  held_claimed = λ i h. ground (arith, v.held_claimed i);
  distinct = ground arith;
}

-- A claim is refused with nothing changed, or is a claim of the active session's grant.
pub claim-cases :
    (w : Registry) (session_id token : Text) (now : ℕ)
    → (claim w session_id token now ≡ (w, err unauthorized))
      ⊎ ((session : ActiveSession) × (w.active ≡ some session)
          × (claim w session_id token now ≡ claim_grant w session.grant token now))
unfolding claim
claim-cases w session_id token now = ground arith

claim-IsValid :
    (w : Registry) (session_id token : Text) (now : ℕ)
    → IsValid w
    → IsValid (claim w session_id token now).0
claim-IsValid w session_id token now v = elim (claim-cases w session_id token now) [
  | inl e ↦ rw e v
  | inr (session, e, same) ↦
      rw same (claim_grant-IsValid w session.grant token now (v.old session.grant (ap current e)) v)
]

issued_live :
    (random : Option (List ℕ)) (lifetime now : ℕ) (grant : Grant) (enrollment : Enrollment)
    → issue_grant random lifetime now ≡ ok (grant, enrollment)
    → grant.revoked ≡ false
unfolding issue_grant
issued_live random lifetime now grant enrollment h = ground arith

issue-IsValid :
    (w : Registry) (random : Option (List ℕ)) (lifetime now : ℕ)
    → IsValid w
    → IsValid (issue w random lifetime now).0
unfolding issue
issue-IsValid w random lifetime now v = elim (Result-cases (issue_grant random lifetime now)) [
  | inl ((grant, enrollment), e) ↦
      rw (e, issue)
        (replace-IsValid w (decode_hex session_id_bytes enrollment.session_id).0 grant
          (issued_live random lifetime now grant enrollment e) v)
  | inr (problem, e) ↦ rw (e, issue) v
]

step-IsValid : (w : Registry) (c : Call) → IsValid w → IsValid (step w c)
unfolding step
step-IsValid w (issues random lifetime now) v = issue-IsValid w random lifetime now v
step-IsValid w (claims session_id token now) v = claim-IsValid w session_id token now v
step-IsValid w (revokes session_id) v = revoke-IsValid w session_id v
step-IsValid w (drops i) v = drop_lease-IsValid w i v

run-IsValid : (w : Registry) (cs : List Call) → IsValid w → IsValid (run w cs)
unfolding run
run-IsValid w [] v = v
run-IsValid w (c ∷ cs) v = run-IsValid (step w c) cs (step-IsValid w c v)

filter_none :
    (p : ℕ → Bool) (k : ℕ) (xs : List ℕ)
    → ((i : ℕ) → contains i xs ≡ true → p i ≡ true → i ≡ k)
    → contains k xs ≡ false
    → length (filter p xs) ≡ 0
filter_none p k [] only h = refl
filter_none p k (x ∷ xs) only h =
    ground (arith, ==_refl x, only x, filter_none p k xs (λ i c. only i (ground arith)))

filter_one :
    (p : ℕ → Bool) (k : ℕ) (xs : List ℕ)
    → Distinct xs
    → ((i : ℕ) → contains i xs ≡ true → p i ≡ true → i ≡ k)
    → length (filter p xs) ≤ 1
filter_one p k [] d only = omega arith
filter_one p k (x ∷ xs) d only = elim (Bool-cases (p x)) [
  | inl t ↦
      let same : x ≡ k = only x (ground (arith, ==_refl x)) t in
      let rest : length (filter p xs) ≡ 0 =
        filter_none p k xs (λ i c. only i (ground (arith, c))) (rw (← same) (d.0)) in
      rw t (omega (arith, rest))
  | inr f ↦ rw f (filter_one p k xs d.1 (λ i c. only i (ground (arith, c))))
]

-- The leases of which `is_active` is true.
abbrev pub active_leases : Registry → List ℕ
active_leases w = filter (is_active w) w.held

valid_one : (w : Registry) → IsValid w → length (active_leases w) ≤ 1
valid_one w v = elim (Option-cases (current w.active)) [
  | inl e ↦
      filter_one (is_active w) 0 w.held v.distinct (λ i c a. absurd (ground (arith, v.live i)))
  | inr (k, e) ↦ filter_one (is_active w) k w.held v.distinct (λ i c a. ground (arith, v.live i))
]

filter_head : (p : ℕ → Bool) (i : ℕ) (xs ys : List ℕ) → filter p xs ≡ i ∷ ys → p i ≡ true
filter_head p i [] ys h = absurd (ground arith)
filter_head p i (x ∷ xs) ys h = elim (Bool-cases (p x)) [
  | inl t ↦ ground arith
  | inr f ↦ filter_head p i xs ys (ground arith)
]

valid_current :
    (w : Registry) (leases : List ℕ)
    → IsValid w
    → active_leases w ≡ leases
    → length leases ≤ 1
    → (leases ≡ []) ⊎ ((i : ℕ) × (leases ≡ i ∷ []) × (current w.active ≡ some i))
valid_current w [] v e short = inl refl
valid_current w (i ∷ []) v e short =
    let alive = filter_head (is_active w) i w.held [] e in inr (i, refl, v.live i (ground arith))
valid_current w (i ∷ j ∷ rest) v e short = absurd (omega arith)

-- After any sequence of issuing, claiming, revoking and dropping on a new registry, either no lease
-- is active, or there is one active lease alone, and its grant is that of the session that the
-- registry holds.
pub one_active_lease :
    (cs : List Call)
    → (active_leases (run empty_registry cs) ≡ [])
      ⊎ ((i : ℕ) × (active_leases (run empty_registry cs) ≡ i ∷ [])
          × (current (run empty_registry cs).active ≡ some i))
one_active_lease cs =
    let v = run-IsValid empty_registry cs empty-IsValid in
    valid_current (run empty_registry cs) (active_leases (run empty_registry cs)) v refl
      (valid_one _ v)
