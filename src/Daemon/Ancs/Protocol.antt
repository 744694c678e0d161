-- ===== src/Daemon/Ancs/Protocol.antt =====
-- `AncsProtocolConsumer`: one request at a time, no notification twice, and the fragments of a response.
-- `NotificationSourceEvent`, and the requests to invoke an action.
pub mod Reassembly
pub mod Replay
pub mod Requests
use analogconnect.Base.{
  ℕ, suc, ◌+◌, ◌-◌, Bool, true, false, not, ◌||◌, Option, none, some, List, [], ◌∷◌, ◌++◌, ltb,
  ◌==◌, length, drop, filter, get_or, if◌then◌else◌,
}
use analogconnect.Base.Options.{◌>>=◌}
use analogconnect.Base.Text.{Text, chars, same, member, from_utf8_lossy}
use analogconnect.Daemon.Ancs.Attributes.{attribute_request, parse_attributes}

abbrev pub messages_app : List ℕ
messages_app = chars "com.apple.MobileSMS"

abbrev pub max_response_bytes : ℕ
max_response_bytes = 4096

pub data NotificationEventKind : Type 0 where
  added modified removed : NotificationEventKind

pub record NotificationSourceEvent : Type 0 where
  pub kind : NotificationEventKind
  pub uid : List ℕ

abbrev pub kind_of : ℕ → Option NotificationEventKind
kind_of event_id =
    if event_id == 0
    then some added
    else if event_id == 1
    then some modified
    else if event_id == 2
    then some removed
    else none

abbrev pub parse_event : List ℕ → Option NotificationSourceEvent
parse_event (event_id ∷ _flags ∷ _category ∷ _count ∷ a ∷ b ∷ c ∷ d ∷ []) =
    kind_of event_id >>= λ kind. some (record { kind = kind; uid = a ∷ b ∷ c ∷ d ∷ [] })
parse_event _ = none

pub record AncsNotificationMetadata : Type 0 where
  pub uid : List ℕ
  pub title : Text
  pub subtitle : Text
  pub positive_action_label : Text
  pub negative_action_label : Text

pub data NotificationAction : Type 0 where
  positive negative : NotificationAction

abbrev action_id : NotificationAction → ℕ
action_id positive = 0
action_id negative = 1

unfoldable pub notification_action_request : List ℕ → NotificationAction → List ℕ
notification_action_request uid action =
    2 ∷ get_or uid 0 0 ∷ get_or uid 1 0 ∷ get_or uid 2 0 ∷ get_or uid 3 0 ∷ action_id action ∷ []

pub record AncsProtocolConsumer : Type 0 where
  pub queued : List (List ℕ)
  pub completed : List (List ℕ)
  pub pending : Option (List ℕ)
  pub response : List ℕ

abbrev pub default_consumer : AncsProtocolConsumer
default_consumer = record { queued = []; completed = []; pending = none; response = [] }

-- `retain(|uid| *uid != event.uid)`.
abbrev pub without : List ℕ → List (List ℕ) → List (List ℕ)
without uid = filter (λ other. not (same other uid))

abbrev pub is_pending : List ℕ → Option (List ℕ) → Bool
is_pending uid none = false
is_pending uid (some other) = same other uid

abbrev pub is_known : AncsProtocolConsumer → List ℕ → Bool
is_known c uid = member uid c.completed || is_pending uid c.pending || member uid c.queued

-- An event that adds a notification, or modifies one.
abbrev pub announced :
    AncsProtocolConsumer → List ℕ → Option (List ℕ) → AncsProtocolConsumer × Option (List ℕ)
announced c uid none =
    (record c { pending = some uid; response = [] }, some (attribute_request uid))
announced c uid (some other) =
    (if ltb (length c.queued) 32 then record c { queued = c.queued ++ (uid ∷ []) } else c, none)

abbrev pub noticed :
    AncsProtocolConsumer → NotificationEventKind → List ℕ → AncsProtocolConsumer × Option (List ℕ)
noticed c removed uid = (record c { queued = without uid c.queued }, none)
noticed c added uid = if is_known c uid then (c, none) else announced c uid c.pending
noticed c modified uid = if is_known c uid then (c, none) else announced c uid c.pending

abbrev pub on_event :
    AncsProtocolConsumer → Option NotificationSourceEvent → AncsProtocolConsumer × Option (List ℕ)
on_event c none = (c, none)
on_event c (some event) = noticed c event.kind event.uid

unfoldable pub notification_source :
    AncsProtocolConsumer → List ℕ → AncsProtocolConsumer × Option (List ℕ)
notification_source c value = on_event c (parse_event value)

abbrev pub reset_pending : AncsProtocolConsumer → AncsProtocolConsumer
reset_pending c = record c { pending = none; response = [] }

-- `pop_front`, and the request for what it gives.
abbrev pub requested : AncsProtocolConsumer → List (List ℕ) → AncsProtocolConsumer × Option (List ℕ)
requested c [] = (c, none)
requested c (uid ∷ queued) =
    (record c { queued = queued; pending = some uid }, some (attribute_request uid))

unfoldable pub start_next : AncsProtocolConsumer → AncsProtocolConsumer × Option (List ℕ)
start_next c = let c' = reset_pending c in requested c' c'.queued

abbrev nth : List (List ℕ) → ℕ → List ℕ
nth values i = get_or values i []

abbrev pub metadata_of : List ℕ → List (List ℕ) → Option AncsNotificationMetadata
metadata_of uid values =
    if same (nth values 0) messages_app
    then some (record {
      uid = uid;
      title = from_utf8_lossy (nth values 1);
      subtitle = from_utf8_lossy (nth values 2);
      positive_action_label = from_utf8_lossy (nth values 5);
      negative_action_label = from_utf8_lossy (nth values 6);
    })
    else none

-- The newest 64 completed notifications.
abbrev pub remembered : List (List ℕ) → List ℕ → List (List ℕ)
remembered completed uid = let grown = completed ++ (uid ∷ []) in drop (length grown - 64) grown

abbrev pub with_metadata :
    Option AncsNotificationMetadata
    → AncsProtocolConsumer × Option (List ℕ)
    → AncsProtocolConsumer × Option AncsNotificationMetadata × Option (List ℕ)
with_metadata metadata (c, request) = (c, metadata, request)

-- What a parsed response does, with the request for the pending notification.
abbrev pub answered :
    AncsProtocolConsumer
    → List ℕ
    → Option (List (List ℕ) × ℕ)
    → AncsProtocolConsumer × Option AncsNotificationMetadata × Option (List ℕ)
answered c uid none = (c, none, none)
answered c uid (some (values, consumed)) = with_metadata (metadata_of uid values) (
    start_next (record c {
      pending = none;
      response = drop consumed c.response;
      completed = remembered c.completed uid;
    }))

abbrev pub received :
    AncsProtocolConsumer
    → List ℕ
    → Option (List ℕ)
    → AncsProtocolConsumer × Option AncsNotificationMetadata × Option (List ℕ)
received c fragment none = with_metadata none (start_next (reset_pending c))
received c fragment (some uid) =
    if ltb max_response_bytes (length c.response + length fragment)
    then with_metadata none (start_next (reset_pending c))
    else let c' = record c { response = c.response ++ fragment } in
      answered c' uid (parse_attributes c'.response)

unfoldable pub data_source :
    AncsProtocolConsumer
    → List ℕ
    → AncsProtocolConsumer × Option AncsNotificationMetadata × Option (List ℕ)
data_source c fragment = received c fragment c.pending
