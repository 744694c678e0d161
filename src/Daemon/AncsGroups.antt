-- ===== src/Daemon/AncsGroups.antt =====
-- crates/analogconnectd/src/ancs_groups.rs: which notification tells of which message.
-- Unicode's NFKC with case folding, and SHA-256, come from other packages and are arguments.
-- A time in milliseconds is counted from the least 64-bit signed one.
pub mod Found
pub mod Unique
pub mod Apply
use analogconnect.Base.{
  ℕ, zero, suc, ◌+◌, ◌-◌, Bool, true, false, not, ◌&&◌, ◌||◌, Option, none, some, List, [], ◌∷◌,
  ◌++◌, map, length, drop, get_elem?, any, ltb, leb, if◌then◌else◌,
}
use analogconnect.Base.Text.{Text, chars, as_bytes, is_whitespace, same, member}
use analogconnect.Daemon.Hex.{encode_hex}

abbrev hash_domain : List ℕ
hash_domain = as_bytes (chars "ancs-subtitle-v1" ++ (0 ∷ []))

-- `split_whitespace`, with the word read so far.
abbrev pub flushed : Text → List Text
flushed [] = []
flushed (c ∷ word) = (c ∷ word) ∷ []

unfoldable pub split_whitespace : Text → Text → List Text
unfolding is_whitespace
split_whitespace word [] = flushed word
split_whitespace word (c ∷ text) =
    if is_whitespace c
    then flushed word ++ split_whitespace [] text
    else split_whitespace (word ++ (c ∷ [])) text

unfoldable pub join_words : List Text → Text
join_words [] = []
join_words (word ∷ []) = word
join_words (word ∷ next ∷ words) = word ++ (b' ' ∷ join_words (next ∷ words))

pub record PendingAncsNotification : Type 0 where
  pub notification_uid : List ℕ
  pub title : Text
  pub subtitle : Text
  pub observed_unix_millis : ℕ

pub record PendingMapMessage : Type 0 where
  pub map_handle : Text
  pub sender : Text
  pub sender_display_name : Option Text
  pub observed_unix_millis : ℕ

pub data CorrelationResult : Type 0 where
  group : Text → List ℕ → Text → Text → Text → ℕ → CorrelationResult
  direct_candidate : Text → List ℕ → CorrelationResult
  pending : CorrelationResult
  ambiguous : List Text → ℕ → CorrelationResult

pub record AncsMapCorrelator : Type 0 where
  pub notifications : List PendingAncsNotification
  pub messages : List PendingMapMessage
  pub completed_uids : List (List ℕ)
  pub max_delta_millis : ℕ

abbrev pub new_correlator : ℕ → AncsMapCorrelator
new_correlator max_delta_millis = record {
  notifications = [];
  messages = [];
  completed_uids = [];
  max_delta_millis = max_delta_millis;
}

-- The indices of the elements that meet a test, and `VecDeque::remove`.
unfoldable pub positions {ℓ} : {A : Type ℓ} → (A → Bool) → List A → List ℕ
positions test [] = []
positions test (x ∷ xs) =
    let later = map suc (positions test xs) in if test x then zero ∷ later else later

abbrev pub remove_at {ℓ} : {A : Type ℓ} → ℕ → List A → List A
remove_at i [] = []
remove_at zero (x ∷ xs) = xs
remove_at (suc i) (x ∷ xs) = x ∷ remove_at i xs

-- The last elements, as many as a bound: `pop_front` while there are more.
abbrev pub bounded {ℓ} : {A : Type ℓ} → ℕ → List A → List A
bounded most xs = drop (length xs - most) xs

abbrev pub abs_diff : ℕ → ℕ → ℕ
abs_diff a b = (a - b) + (b - a)

abbrev unwrap_or : Option Text → Text → Text
unwrap_or none text = text
unwrap_or (some name) text = name

abbrev pub remember_completed : AncsMapCorrelator → List ℕ → AncsMapCorrelator
remember_completed c uid = record c { completed_uids = bounded 64 (c.completed_uids ++ (uid ∷ [])) }

abbrev pub keep_message : AncsMapCorrelator → PendingMapMessage → AncsMapCorrelator
keep_message c message =
    if any (λ existing. same existing.map_handle message.map_handle) c.messages
    then c
    else record c { messages = bounded 32 (c.messages ++ (message ∷ [])) }

abbrev pub replaced :
    PendingAncsNotification → List PendingAncsNotification → List PendingAncsNotification
replaced notification [] = []
replaced notification (existing ∷ others) =
    if same existing.notification_uid notification.notification_uid
    then notification ∷ others
    else existing ∷ replaced notification others

abbrev pub named : Option PendingMapMessage → List Text → List Text
named none handles = handles
named (some message) handles = message.map_handle ∷ handles

-- `filter_map` over the candidates.
abbrev pub handles_at : List PendingMapMessage → List ℕ → List Text
handles_at messages [] = []
handles_at messages (index ∷ indices) =
    named (get_elem? messages index) (handles_at messages indices)

abbrev pub keep_notification : AncsMapCorrelator → PendingAncsNotification → AncsMapCorrelator
keep_notification c notification = record c {
  notifications = bounded 32 (c.notifications ++ (notification ∷ []));
}

module _ (fold_case : Text → Text) (sha256 : List ℕ → List ℕ) where
  unfoldable pub normalize_ancs_subtitle : Text → Text
  unfolding split_whitespace join_words
  normalize_ancs_subtitle value = join_words (split_whitespace [] (fold_case value))

  abbrev pub group_id_of : Text → Option Text
  group_id_of [] = none
  group_id_of (c ∷ normalized) =
      some (chars "ancs-v1-" ++ encode_hex (sha256 (hash_domain ++ as_bytes (c ∷ normalized))))

  unfoldable pub ancs_group_id : Text → Option Text
  unfolding normalize_ancs_subtitle
  ancs_group_id value = group_id_of (normalize_ancs_subtitle value)

  unfoldable pub matches : ℕ → PendingAncsNotification → PendingMapMessage → Bool
  unfolding normalize_ancs_subtitle
  matches max_delta_millis notification message =
      leb (abs_diff notification.observed_unix_millis message.observed_unix_millis) max_delta_millis
      && same (normalize_ancs_subtitle notification.title)
          (normalize_ancs_subtitle (unwrap_or message.sender_display_name message.sender))

  abbrev pub paired : PendingAncsNotification → PendingMapMessage → Option Text → CorrelationResult
  paired notification message none =
      direct_candidate message.map_handle notification.notification_uid
  paired notification message (some group_id) =
      group message.map_handle notification.notification_uid group_id notification.subtitle
        message.sender notification.observed_unix_millis

  unfoldable pub correlate_pair : PendingAncsNotification → PendingMapMessage → CorrelationResult
  unfolding ancs_group_id
  correlate_pair notification message =
      paired notification message (ancs_group_id notification.subtitle)

  abbrev pub found_notification :
      AncsMapCorrelator
      → PendingMapMessage
      → List PendingAncsNotification
      → Option PendingAncsNotification
      → AncsMapCorrelator × CorrelationResult
  found_notification c message rest none = (c, pending)
  found_notification c message rest (some notification) = (
    remember_completed (record c { notifications = rest }) notification.notification_uid,
    correlate_pair notification message,
  )

  abbrev pub resolved_map :
      AncsMapCorrelator → PendingMapMessage → List ℕ → AncsMapCorrelator × CorrelationResult
  resolved_map c message [] = (keep_message c message, pending)
  resolved_map c message (index ∷ []) =
      found_notification c message (remove_at index c.notifications)
        (get_elem? c.notifications index)
  resolved_map c message (index ∷ next ∷ indices) =
      (c, ambiguous (message.map_handle ∷ []) message.observed_unix_millis)

  unfoldable pub correlate_map :
      AncsMapCorrelator → PendingMapMessage → AncsMapCorrelator × CorrelationResult
  unfolding matches correlate_pair
  correlate_map c message =
      resolved_map c message (
        positions (λ notification. matches c.max_delta_millis notification message) c.notifications)

  abbrev pub found_message :
      AncsMapCorrelator
      → PendingAncsNotification
      → List PendingMapMessage
      → Option PendingMapMessage
      → AncsMapCorrelator × Option CorrelationResult
  found_message c notification rest none = (c, none)
  found_message c notification rest (some message) = (
    remember_completed (record c { messages = rest }) notification.notification_uid,
    some (correlate_pair notification message),
  )

  abbrev pub resolved_ancs :
      AncsMapCorrelator
      → PendingAncsNotification
      → List ℕ
      → AncsMapCorrelator × Option CorrelationResult
  resolved_ancs c notification [] = (keep_notification c notification, none)
  resolved_ancs c notification (index ∷ []) =
      found_message c notification (remove_at index c.messages) (get_elem? c.messages index)
  resolved_ancs c notification (index ∷ next ∷ indices) = (
    keep_notification c notification,
    some (
        ambiguous (handles_at c.messages (index ∷ next ∷ indices))
          notification.observed_unix_millis),
  )

  unfoldable pub observe_ancs :
      AncsMapCorrelator → PendingAncsNotification → AncsMapCorrelator × Option CorrelationResult
  unfolding matches correlate_pair
  observe_ancs c notification =
      if member notification.notification_uid c.completed_uids
      then (c, none)
      else if any (λ existing. same existing.notification_uid notification.notification_uid)
          c.notifications
      then (record c { notifications = replaced notification c.notifications }, none)
      else resolved_ancs c notification
          (positions (λ message. matches c.max_delta_millis notification message) c.messages)
