-- ===== src/Daemon/Messages/Operations/Remembered.antt =====
-- The identifiers that `MessageOperationRegistry` remembers, against the log of what was sent.
use analogconnect.Base.{
  ℕ, zero, suc, max, ◌-◌, ◌<◌, ◌≡◌, ◌↔◌, refl, sym, ap, ◌∙◌, true, false, List, [], ◌∷◌, ◌++◌,
  length, drop, newest, newest-newest, arith, Bool-cases, inl, inr, ltb, if◌then◌else◌,
}
use analogconnect.Base.Text.{Text, same, member, same→eq}
use analogconnect.Base.Distinct.{Distinct, Distinct-append, member-append}
use analogconnect.Daemon.Messages.Operations.{
  MessageOperationRegistry, OperationEvent, begins, ends, accepted_duplicate, remove_id,
  begin_operation, expire, settled, accept, fail, new_registry, step, run,
}

member-remove_id :
    (id other : Text) (xs : List Text)
    → member id (remove_id other xs) ≡ (if same other id then false else member id xs)
unfolding member
member-remove_id id other [] = ground arith
member-remove_id id other (x ∷ xs) = elim (Bool-cases (same x other)) [
  | inl t ↦
      let e : x ≡ other = same→eq x other t in
      let rest = member-remove_id id other xs in rw t (rest ∙ rw (← e) (ground arith))
  | inr f ↦ elim (Bool-cases (same other id)) [
    | inl u ↦
        let e : other ≡ id = same→eq other id u in
        let apart : same x id ≡ false = rw (← e) f in
        rw (f, u) (ground (arith, member-remove_id id other xs))
    | inr g ↦ rw (f, g) (ground (arith, member-remove_id id other xs))
  ]
]

-- The set and the order hold the same identifiers.
abbrev Agree : List Text → List Text → Type 0
Agree order accepted = (id : Text) → member id accepted ≡ member id order

Agree-tail :
    (x : Text) (order accepted : List Text)
    → member x order ≡ false
    → Agree (x ∷ order) accepted
    → Agree order (remove_id x accepted)
unfolding member
Agree-tail x order accepted fresh agree id = elim (Bool-cases (same x id)) [
  | inl t ↦
      let e : x ≡ id = same→eq x id t in
      let fresh' : member id order ≡ false = rw (← e) fresh in
      member-remove_id id x accepted ∙ rw (t, fresh') refl
  | inr f ↦ member-remove_id id x accepted ∙ rw f (agree id ∙ rw f refl)
]

expire-newest :
    (c : ℕ) (order accepted : List Text)
    → Distinct order
    → Agree order accepted
    → ((expire c order accepted).0 ≡ newest c order)
      × Distinct (expire c order accepted).0
      × Agree (expire c order accepted).0 (expire c order accepted).1
unfolding expire
expire-newest c [] accepted d agree = let none : 0 - c ≡ 0 = omega arith in (rw none refl, d, agree)
expire-newest c (x ∷ order) accepted d agree = elim (Bool-cases (ltb c (suc (length order)))) [
  | inl full ↦
      let one : suc (length order) - c ≡ suc (length order - c) = ground arith in
      rw (full, one)
        (expire-newest c order (remove_id x accepted) d.1 (Agree-tail x order accepted d.0 agree))
  | inr room ↦
      let none : suc (length order) - c ≡ 0 = ground arith in rw (room, none) (refl, d, agree)
]

-- The log of the messages sent, and the registry that remembers the end of it.
pub record IsRemembering (r : MessageOperationRegistry) (log : List Text) : Type 0 where
  pub order : r.accepted_order ≡ newest r.capacity log
  pub distinct : Distinct r.accepted_order
  pub agree : Agree r.accepted_order r.accepted
  pub apart : (id : Text) → member id r.in_flight ≡ true → member id r.accepted ≡ false

begin_operation-IsRemembering :
    (r : MessageOperationRegistry) (log : List Text) (id : Text)
    → IsRemembering r log
    → IsRemembering (begin_operation r id).0 log
unfolding begin_operation member
begin_operation-IsRemembering r log id v = elim (Bool-cases (member id r.accepted)) [
  | inl t ↦ rw t v
  | inr f ↦ elim (Bool-cases (member id r.in_flight)) [
    | inl t ↦ rw (f, t) v
    | inr g ↦
        rw (f, g)
          (record {
            order = v.order;
            distinct = v.distinct;
            agree = v.agree;
            apart = λ other h. elim (Bool-cases (same id other)) [
              | inl t ↦ rw (← (same→eq id other t)) f
              | inr k ↦ v.apart other (ground arith)
            ];
          })
  ]
]

fail-IsRemembering :
    (r : MessageOperationRegistry) (log : List Text) (id : Text)
    → IsRemembering r log
    → IsRemembering (fail r id) log
unfolding fail
fail-IsRemembering r log id v = record {
  order = v.order;
  distinct = v.distinct;
  agree = v.agree;
  apart = λ other h. v.apart other (ground (arith, member-remove_id other id r.in_flight));
}

member-drop :
    (id : Text) (n : ℕ) (xs : List Text) → member id xs ≡ false → member id (drop n xs) ≡ false
unfolding member
member-drop id zero xs h = h
member-drop id (suc n) [] h = h
member-drop id (suc n) (x ∷ xs) h = member-drop id n xs (ground arith)

-- The registry after a success, with the order and the set that `expire` left.
settled-IsRemembering :
    (r : MessageOperationRegistry) (log : List Text) (id : Text) (left : List Text × List Text)
    → left.0 ≡ newest r.capacity (r.accepted_order ++ (id ∷ []))
    → Distinct left.0
    → Agree left.0 left.1
    → IsRemembering r log
    → IsRemembering (settled r id left) (log ++ (id ∷ []))
unfolding member
settled-IsRemembering r log id (order, accepted) e d agree v = record {
  order = e ∙ rw v.order (newest-newest r.capacity log (id ∷ []));
  distinct = d;
  agree = agree;
  apart = λ other h.
      let flying : (same id other ≡ false) × (member other r.in_flight ≡ true) =
        ground (arith, member-remove_id other id r.in_flight) in
      let old = sym (v.agree other) ∙ v.apart other flying.1 in
      let none : member other (r.accepted_order ++ (id ∷ [])) ≡ false =
        ground (arith, member-append other r.accepted_order (id ∷ []), old) in
      agree other ∙ rw e (member-drop other _ (r.accepted_order ++ (id ∷ [])) none);
}

accept-IsRemembering :
    (r : MessageOperationRegistry) (log : List Text) (id : Text)
    → member id r.in_flight ≡ true
    → IsRemembering r log
    → IsRemembering (accept r id) (log ++ (id ∷ []))
unfolding accept member
accept-IsRemembering r log id flying v =
    let fresh = v.apart id flying in
    let fresh' = sym (v.agree id) ∙ fresh in
    let (e, d, agree) =
      expire-newest r.capacity (r.accepted_order ++ (id ∷ [])) (id ∷ r.accepted)
        (Distinct-append id r.accepted_order fresh' v.distinct)
        (λ other. ground (arith, member-append other r.accepted_order (id ∷ []), v.agree other)) in
    rw (fresh, accept) (settled-IsRemembering r log id _ e d agree v)

step-IsRemembering :
    (r : MessageOperationRegistry) (log : List Text) (event : OperationEvent)
    → IsRemembering r log
    → IsRemembering (step (r, log) event).0 (step (r, log) event).1
unfolding step
step-IsRemembering r log (begins id) v = begin_operation-IsRemembering r log id v
step-IsRemembering r log (ends id true) v = elim (Bool-cases (member id r.in_flight)) [
  | inl t ↦ rw t (accept-IsRemembering r log id t v)
  | inr f ↦ rw f v
]
step-IsRemembering r log (ends id false) v = elim (Bool-cases (member id r.in_flight)) [
  | inl t ↦ rw t (fail-IsRemembering r log id v)
  | inr f ↦ rw f v
]

run-IsRemembering :
    (s : MessageOperationRegistry × List Text) (events : List OperationEvent)
    → IsRemembering s.0 s.1
    → IsRemembering (run s events).0 (run s events).1
unfolding run
run-IsRemembering s [] v = v
run-IsRemembering (r, log) (event ∷ events) v =
    run-IsRemembering (step (r, log) event) events (step-IsRemembering r log event v)

capacity-run :
    (s : MessageOperationRegistry × List Text) (events : List OperationEvent)
    → (run s events).0.capacity ≡ s.0.capacity
unfolding run step begin_operation accept fail
capacity-run s [] = refl
capacity-run (r, log) (event ∷ events) = capacity-run (step (r, log) event) events ∙ ground arith

new_registry-IsRemembering : (capacity : ℕ) → IsRemembering (new_registry capacity) []
unfolding new_registry member
new_registry-IsRemembering capacity =
    let none : 0 - max capacity 1 ≡ 0 = omega arith in
    record { order = rw none refl; distinct = tt; agree = λ id. refl; apart = λ id h. refl }

begin_operation_iff :
    (r : MessageOperationRegistry) (id : Text)
    → ((begin_operation r id).1 ≡ accepted_duplicate) ↔ (member id r.accepted ≡ true)
unfolding begin_operation
begin_operation_iff r id = ground arith

capacity-new :
    (capacity : ℕ) (events : List OperationEvent)
    → 0 < capacity
    → (run (new_registry capacity, []) events).0.capacity ≡ capacity
unfolding new_registry
capacity-new capacity events positive =
    capacity-run (new_registry capacity, []) events ∙ omega arith

-- After requests have begun and ended in any interleaving on a registry of some capacity of one or more: an
-- identifier is taken for an accepted duplicate exactly if it is among those of the last messages
-- sent, as many as the capacity; and no two of those messages had the same identifier.
pub begin_operation-run :
    (capacity : ℕ) (events : List OperationEvent) (id : Text)
    → 0 < capacity
    → (((begin_operation (run (new_registry capacity, []) events).0 id).1 ≡ accepted_duplicate)
        ↔ (member id (newest capacity (run (new_registry capacity, []) events).1) ≡ true))
      × Distinct (newest capacity (run (new_registry capacity, []) events).1)
begin_operation-run capacity events id positive =
    let (r, log) = run (new_registry capacity, []) events in
    let v =
      run-IsRemembering (new_registry capacity, []) events (new_registry-IsRemembering capacity) in
    let order : r.accepted_order ≡ newest capacity log =
      v.order ∙ ap (λ c. newest c log) (capacity-new capacity events positive) in
    let same_members : member id r.accepted ≡ member id (newest capacity log) =
      v.agree id ∙ ap (member id) order in
    let (there, back) = begin_operation_iff r id in
    ((λ h. sym same_members ∙ there h, λ h. back (same_members ∙ h)), rw (← order) v.distinct)
