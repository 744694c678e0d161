-- ===== src/Daemon/AncsGroups/Unique.antt =====
-- A message is paired with a notification only if no other one matches it.
use analogconnect.Base.{
  ℕ, ◌≤◌, ◌≡◌, refl, sym, ap, inl, inr, Bool, true, false, Bool-cases, Option, none, some, List, [],
  ◌∷◌, ◌++◌, map, any, leb, ◌&&◌, ◌+◌, newest, arith, subst, filter,
}
use analogconnect.Base.Text.{Text, same, member}
use analogconnect.Daemon.AncsGroups.{
  PendingAncsNotification, PendingMapMessage, CorrelationResult, pending, ambiguous,
  AncsMapCorrelator, positions, remove_at, matches, correlate_pair, replaced, resolved_map,
  correlate_map, resolved_ancs, observe_ancs, handles_at, group, direct_candidate, abs_diff, paired,
  ancs_group_id, normalize_ancs_subtitle,
}
use analogconnect.Daemon.AncsGroups.Found.{
  count, IsOnly, AreFound, positions-AreFound, handles_at-positions, positions-pointwise,
}

abbrev has_handle : PendingMapMessage → PendingMapMessage → Bool
has_handle message existing = same existing.map_handle message.map_handle

abbrev has_uid : PendingAncsNotification → PendingAncsNotification → Bool
has_uid n existing = same existing.notification_uid n.notification_uid

-- The first notification with the UID of `n` is replaced by it.
abbrev pub IsReplaced :
    PendingAncsNotification → List PendingAncsNotification → List PendingAncsNotification → Type 0
IsReplaced n xs ys =
    (before : List PendingAncsNotification) × (old : PendingAncsNotification) × (after : List
      PendingAncsNotification)
    × (xs ≡ before ++ (old ∷ after))
    × (ys ≡ before ++ (n ∷ after))
    × (any (has_uid n) before ≡ false)
    × (has_uid n old ≡ true)

replaced-IsReplaced :
    (n : PendingAncsNotification) (xs : List PendingAncsNotification)
    → any (has_uid n) xs ≡ true
    → IsReplaced n xs (replaced n xs)
replaced-IsReplaced n [] h = absurd (cc h)
replaced-IsReplaced n (x ∷ xs) h = elim (Bool-cases (has_uid n x)) [
  | inl t ↦ ([], x, xs, refl, rw t refl, refl, t)
  | inr f ↦
      let (before, old, after, whole, new, first, found) =
        replaced-IsReplaced n xs (ground arith) in
      (x ∷ before, old, after, ap (◌∷◌ x) whole, rw (f, new) refl, rw (f, first) refl, found)
]

within_window : (a b most : ℕ) → leb (abs_diff a b) most ≡ (leb a (b + most) && leb b (a + most))
within_window a b most = ground arith

-- The name that a message shows for its sender.
abbrev shown_name : Option Text → Text → Text
shown_name none sender = sender
shown_name (some name) sender = name

module _ (fold_case : Text → Text) (sha256 : List ℕ → List ℕ) where
  abbrev normalized : Text → Text
  normalized = normalize_ancs_subtitle fold_case sha256

  -- A notification matches a message: neither is later than the other by more than the correlation
  -- window, and the title of the notification names the sender.
  abbrev pub tells_of : AncsMapCorrelator → PendingMapMessage → PendingAncsNotification → Bool
  tells_of c message n =
      leb n.observed_unix_millis (message.observed_unix_millis + c.max_delta_millis)
      && leb message.observed_unix_millis (n.observed_unix_millis + c.max_delta_millis)
      && same (normalized n.title)
          (normalized (shown_name message.sender_display_name message.sender))

  abbrev pub told_by : AncsMapCorrelator → PendingAncsNotification → PendingMapMessage → Bool
  told_by c n message = tells_of c message n

  matches-tells_of :
      (c : AncsMapCorrelator) (message : PendingMapMessage) (n : PendingAncsNotification)
      → matches fold_case sha256 c.max_delta_millis n message ≡ tells_of c message n
  unfolding matches
  matches-tells_of c message n =
      ground (
        arith,
        within_window n.observed_unix_millis message.observed_unix_millis c.max_delta_millis,
      )

  -- The answer that pairs a notification with a message: the group that its subtitle identifies, or
  -- a candidate for a direct conversation.
  pub data IsPairing (n : PendingAncsNotification) (message : PendingMapMessage)
      : CorrelationResult → Type 0 where
    of_group :
        (id : Text)
        → ancs_group_id fold_case sha256 n.subtitle ≡ some id
        → IsPairing n message (
            group message.map_handle n.notification_uid id n.subtitle message.sender
              n.observed_unix_millis)
    of_one :
        ancs_group_id fold_case sha256 n.subtitle ≡ none
        → IsPairing n message (direct_candidate message.map_handle n.notification_uid)

  paired-IsPairing :
      (n : PendingAncsNotification) (message : PendingMapMessage) (id : Option Text)
      → ancs_group_id fold_case sha256 n.subtitle ≡ id
      → IsPairing n message (paired fold_case sha256 n message id)
  paired-IsPairing n message none e = of_one e
  paired-IsPairing n message (some id) e = of_group id e

  correlate_pair-IsPairing :
      (n : PendingAncsNotification) (message : PendingMapMessage)
      → IsPairing n message (correlate_pair fold_case sha256 n message)
  unfolding correlate_pair
  correlate_pair-IsPairing n message =
      paired-IsPairing n message (ancs_group_id fold_case sha256 n.subtitle) refl

  -- What `correlate_map` does with a message, by how many notifications match it.
  pub data MapOutcome (c : AncsMapCorrelator) (message : PendingMapMessage)
      : AncsMapCorrelator × CorrelationResult → Type 0 where
    unmatched :
        any (tells_of c message) c.notifications ≡ false
        → any (has_handle message) c.messages ≡ false
        → MapOutcome c message
            (record c { messages = newest 32 (c.messages ++ (message ∷ [])) }, pending)
    waiting :
        any (tells_of c message) c.notifications ≡ false
        → any (has_handle message) c.messages ≡ true
        → MapOutcome c message (c, pending)
    undecided :
        2 ≤ count (tells_of c message) c.notifications
        → MapOutcome c message (c, ambiguous (message.map_handle ∷ []) message.observed_unix_millis)
    decided :
        (n : PendingAncsNotification) (rest : List PendingAncsNotification)
        (answer : CorrelationResult)
        → IsOnly (tells_of c message) c.notifications n rest
        → IsPairing n message answer
        → MapOutcome c message (
          record c {
            notifications = rest;
            completed_uids = newest 64 (c.completed_uids ++ (n.notification_uid ∷ []));
          },
          answer,
        )

  resolved_map-MapOutcome :
      (c : AncsMapCorrelator) (message : PendingMapMessage) (indices : List ℕ)
      → AreFound (tells_of c message) c.notifications indices
      → MapOutcome c message (resolved_map fold_case sha256 c message indices)
  resolved_map-MapOutcome c message [] f = elim (Bool-cases (any (has_handle message) c.messages)) [
    | inl t ↦ rw t (waiting f t)
    | inr u ↦ rw u (unmatched f u)
  ]
  resolved_map-MapOutcome c message (i ∷ []) (n, e, only) = rw e (
      decided n (remove_at i c.notifications) (correlate_pair fold_case sha256 n message) only
        (correlate_pair-IsPairing n message))
  resolved_map-MapOutcome c message (i ∷ j ∷ is) f = undecided f

  -- If no notification matches a message, the answer is that it is pending, and it waits from now on
  -- among the latest 32, unless one with its handle waits already; if two or more match, the answer
  -- is ambiguous and nothing changes; only if exactly one matches, it is paired with the message, in
  -- the group that its subtitle identifies if it does, no longer waits, and its UID is remembered
  -- among the latest 64 completed ones. A notification matches a message if their times are within
  -- the correlation window and its title normalizes as the sender's name does.
  pub correlate_map-MapOutcome :
      (c : AncsMapCorrelator) (message : PendingMapMessage)
      → MapOutcome c message (correlate_map fold_case sha256 c message)
  unfolding correlate_map
  correlate_map-MapOutcome c message =
      let found = positions (tells_of c message) c.notifications in
      subst (λ indices. MapOutcome c message (resolved_map fold_case sha256 c message indices))
        (positions-pointwise (tells_of c message) _ c.notifications
          (λ n. sym (matches-tells_of c message n)))
        (resolved_map-MapOutcome c message found
          (positions-AreFound (tells_of c message) c.notifications))

  -- A notification that was not completed and does not wait.
  pub record IsFresh (c : AncsMapCorrelator) (n : PendingAncsNotification) : Type 0 where
    pub not_completed : member n.notification_uid c.completed_uids ≡ false
    pub not_waiting : any (has_uid n) c.notifications ≡ false

  -- The notification waits among the latest 32.
  abbrev pub with_notification : AncsMapCorrelator → PendingAncsNotification → AncsMapCorrelator
  with_notification c n = record c { notifications = newest 32 (c.notifications ++ (n ∷ [])) }

  -- What `observe_ancs` does with a notification, by how many messages match it. The cases exclude
  -- each other.
  pub data AncsOutcome (c : AncsMapCorrelator) (n : PendingAncsNotification)
      : AncsMapCorrelator × Option CorrelationResult → Type 0 where
    over : member n.notification_uid c.completed_uids ≡ true → AncsOutcome c n (c, none)
    updated :
        (notifications : List PendingAncsNotification)
        → member n.notification_uid c.completed_uids ≡ false
        → IsReplaced n c.notifications notifications
        → AncsOutcome c n (record c { notifications = notifications }, none)
    unheard :
        IsFresh c n
        → any (told_by c n) c.messages ≡ false
        → AncsOutcome c n (with_notification c n, none)
    open_choice :
        IsFresh c n
        → 2 ≤ count (told_by c n) c.messages
        → AncsOutcome c n (
          with_notification c n,
          some (
              ambiguous
                (map (λ m. m.map_handle) (filter (told_by c n) c.messages))
                n.observed_unix_millis),
        )
    only_choice :
        (message : PendingMapMessage) (rest : List PendingMapMessage) (answer : CorrelationResult)
        → IsFresh c n
        → IsOnly (told_by c n) c.messages message rest
        → IsPairing n message answer
        → AncsOutcome c n (
          record c {
            messages = rest;
            completed_uids = newest 64 (c.completed_uids ++ (n.notification_uid ∷ []));
          },
          some answer,
        )

  resolved_ancs-AncsOutcome :
      (c : AncsMapCorrelator) (n : PendingAncsNotification) (indices : List ℕ)
      → IsFresh c n
      → AreFound (told_by c n) c.messages indices
      → handles_at c.messages indices ≡ map (λ m. m.map_handle) (filter (told_by c n) c.messages)
      → AncsOutcome c n (resolved_ancs fold_case sha256 c n indices)
  resolved_ancs-AncsOutcome c n [] fresh f h = unheard fresh f
  resolved_ancs-AncsOutcome c n (i ∷ []) fresh (message, e, only) h = rw e (
      only_choice message (remove_at i c.messages) (correlate_pair fold_case sha256 n message) fresh
        only (correlate_pair-IsPairing n message))
  resolved_ancs-AncsOutcome c n (i ∷ j ∷ is) fresh f h =
      subst
        (λ handles.
          AncsOutcome c n (with_notification c n, some (ambiguous handles n.observed_unix_millis)))
        (sym h) (open_choice fresh f)

  -- A notification whose UID is among the completed ones remembered changes nothing. One that is not
  -- and waits already takes the place of the one with its UID. Of any other: if no message matches
  -- it, it waits among the latest 32; if two or more match, it waits so and the answer is ambiguous
  -- and names exactly these messages; only if exactly one matches, it is paired with that message,
  -- in the group that its subtitle identifies if it does; the message no longer waits, and the UID
  -- is remembered among the latest 64 completed ones.
  pub observe_ancs-AncsOutcome :
      (c : AncsMapCorrelator) (n : PendingAncsNotification)
      → AncsOutcome c n (observe_ancs fold_case sha256 c n)
  unfolding observe_ancs
  observe_ancs-AncsOutcome c n = elim (Bool-cases (member n.notification_uid c.completed_uids)) [
    | inl t ↦ rw t (over t)
    | inr f ↦ elim (Bool-cases (any (has_uid n) c.notifications)) [
      | inl t ↦ rw (f, t) (updated _ f (replaced-IsReplaced n c.notifications t))
      | inr g ↦
          let told = told_by c n in
          rw (f, g)
            (subst (λ indices. AncsOutcome c n (resolved_ancs fold_case sha256 c n indices))
              (positions-pointwise told _ c.messages (λ m. sym (matches-tells_of c m n)))
              (resolved_ancs-AncsOutcome c n (positions told c.messages)
                (record { not_completed = f; not_waiting = g }) (positions-AreFound told c.messages)
                (handles_at-positions told c.messages)))
    ]
  ]
