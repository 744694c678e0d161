-- ===== src/Daemon/Server/Pages.antt =====
-- `conversation_page` and `conversation_messages`. The parsed request, the rows of the repository, the
-- search for a contact's name and the random source are arguments; the searches of one request are
-- answered alike if the addresses are alike. The headers of the response are constants.
pub mod Shown
pub mod Walk
pub mod Fetched
use analogconnect.Base.{
  ℕ, zero, suc, ◌+◌, ◌-◌, min, Bool, true, false, not, ◌&&◌, ◌||◌, Option, none, some, List, [],
  ◌∷◌, ◌++◌, Result, ok, err, ◌>>=◌, ◌>>◌, ensure, ok_or, or_err, length, take, drop, map, ltb, leb,
  if◌then◌else◌,
}
use analogconnect.Base.Text.{Text}
use analogconnect.Base.Words.{saturating_add}
use analogconnect.Daemon.Auth.{AuthTokens}
use analogconnect.Daemon.Conversations.{
  ConversationError, StoredConversation, StoredMessage, MessageDirection,
}
use analogconnect.Daemon.Conversations.Aliases.{
  ConversationAliases, expose_stable_id, id_for, key_for,
}
use analogconnect.Daemon.Conversations.Cursor.{
  PageCursor, parse, encode_cursor, advance, hex_digits,
}
use analogconnect.Daemon.Conversations.Repository.{
  InMemoryConversationRepository, messages_for, range,
}
use analogconnect.Daemon.Server.Guards.{
  StatusCode, service_unavailable, gone, payload_too_large, bad_request, unprocessable_entity,
  authorize, page_limit, conversation_status, map_err,
}

pub data ConversationKind : Type 0 where
  one_to_one group ambiguous : ConversationKind

pub record ConversationItem : Type 0 where
  pub conversation_id : Text
  pub display_address : Text
  pub display_name : Option Text
  pub is_group : Bool
  pub reply_supported : Bool
  pub latest_unix_millis : ℕ
  pub message_count : ℕ
  pub unread_count : ℕ
  pub latest_outgoing_state : Option Text
  pub latest_preview : Text
  pub latest_sender : Text
  pub latest_sent : Bool
  pub kind : ConversationKind
  pub title : Text
  pub can_reply : Bool
  pub identity_conflict : Bool

abbrev or_else : Option Text → Option Text → Option Text
or_else none other = other
or_else (some text) other = some text

abbrev unwrap_or : Option Text → Text → Text
unwrap_or none default = default
unwrap_or (some text) default = text

abbrev pub has_group : StoredConversation → Bool
has_group row = row.is_ancs_group || ltb 1 row.participant_count

unfoldable pub item_of : StoredConversation → Option Text → Text → ConversationItem
item_of row display_name conversation_id =
    let is_group = has_group row in
    let can_reply = not is_group && not row.identity_conflict in
    record {
      conversation_id = conversation_id;
      display_address = row.display_address;
      display_name = display_name;
      is_group = is_group;
      reply_supported = can_reply;
      latest_unix_millis = row.latest_unix_millis;
      message_count = row.message_count;
      unread_count = row.unread_count;
      latest_outgoing_state = row.latest_outgoing_state;
      latest_preview = row.latest_preview;
      latest_sender = row.latest_sender;
      latest_sent = row.latest_sent;
      kind = if row.identity_conflict then ambiguous else if is_group then group else one_to_one;
      title = unwrap_or (or_else row.group_title display_name) row.display_address;
      can_reply = can_reply;
      identity_conflict = row.identity_conflict;
    }

-- `ContactStore::lookup_display_name`, `err` for whatever fails.
abbrev pub NameLookup : Type 0
NameLookup = Text → Result (Option Text) (Unit {0})

abbrev pub name_for : NameLookup → StoredConversation → Result (Option Text) StatusCode
name_for lookup row =
    if leb row.participant_count 1 && not row.is_ancs_group
    then or_err (lookup row.display_address) service_unavailable
    else ok none

unfoldable pub display_names :
    NameLookup → List StoredConversation → Result (List (Option Text)) StatusCode
display_names lookup [] = ok []
display_names lookup (row ∷ rows) = do
  name ← name_for lookup row
  names ← display_names lookup rows
  ok (name ∷ names)

abbrev pub id_of :
    ConversationAliases
    → StoredConversation
    → (ℕ → Option (List ℕ))
    → ConversationAliases × Result Text ConversationError
id_of aliases row random =
    if row.is_ancs_group
    then expose_stable_id aliases row.conversation_key
    else id_for aliases row.conversation_key random

-- A row's item before those of the rows after it.
abbrev pub with_item :
    StoredConversation
    → Option Text
    → ConversationAliases × Result Text ConversationError
    → (ConversationAliases → ConversationAliases × Result (List ConversationItem) StatusCode)
    → ConversationAliases × Result (List ConversationItem) StatusCode
with_item row name (aliases, err e) later = (aliases, err (conversation_status e))
with_item row name (aliases, ok id) later =
    let (aliases', items) = later aliases in
    (aliases', items >>= λ is. ok (item_of row name id ∷ is))

-- The loop over the rows and their names; the random source of each row is its own.
unfoldable pub item_loop :
    ConversationAliases
    → List StoredConversation
    → List (Option Text)
    → (ℕ → ℕ → Option (List ℕ))
    → ConversationAliases × Result (List ConversationItem) StatusCode
item_loop aliases [] names random = (aliases, ok [])
item_loop aliases (row ∷ rows) [] random = (aliases, ok [])
item_loop aliases (row ∷ rows) (name ∷ names) random =
    with_item row name (id_of aliases row (random 0))
      (λ aliases'. item_loop aliases' rows names (λ n. random (suc n)))

pub record Page (A : Type 0) : Type 0 where
  pub items : List A
  pub next_cursor : Option Text

abbrev pub next_cursor : Bool → PageCursor → ℕ → Option Text
next_cursor more cursor count = if more then some (encode_cursor (advance cursor count)) else none

-- What the aliases are locked for.
abbrev pub paged :
    PageCursor
    → Bool
    → ConversationAliases × Result (List ConversationItem) StatusCode
    → ConversationAliases × Result (Page ConversationItem) StatusCode
paged cursor more (aliases, items) = (
  aliases,
  items >>= λ is. ok (record { items = is; next_cursor = next_cursor more cursor (length is) }),
)

abbrev pub first_row : List StoredConversation → PageCursor → ℕ
first_row rows cursor = min cursor.offset (length rows)

abbrev pub end_row : List StoredConversation → PageCursor → ℕ → ℕ
end_row rows cursor limit = min (saturating_add (first_row rows cursor) limit) (length rows)

abbrev pub shown_rows : List StoredConversation → PageCursor → ℕ → List StoredConversation
shown_rows rows cursor limit = range rows (first_row rows cursor) (end_row rows cursor limit)

-- The rows and names to show, from what the request and the repository give.
unfoldable pub prepared :
    AuthTokens
    → Option Text
    → Option Text
    → Option ℕ
    → Result (List StoredConversation) ConversationError
    → NameLookup
    → Result (PageCursor × ℕ × List StoredConversation × List (Option Text)) StatusCode
prepared tokens authorization cursor_text requested repository lookup = do
  authorize tokens authorization
  cursor ← map_err conversation_status (parse cursor_text)
  limit ← page_limit requested
  rows ← map_err conversation_status repository
  names ← display_names lookup (shown_rows rows cursor limit)
  ok (cursor, limit, rows, names)

abbrev pub answered :
    ConversationAliases
    → (ℕ → ℕ → Option (List ℕ))
    → Result (PageCursor × ℕ × List StoredConversation × List (Option Text)) StatusCode
    → ConversationAliases × Result (Page ConversationItem) StatusCode
answered aliases random (err e) = (aliases, err e)
answered aliases random (ok (cursor, limit, rows, names)) =
    paged cursor (ltb (end_row rows cursor limit) (length rows))
      (item_loop aliases (shown_rows rows cursor limit) names random)

unfoldable pub conversation_page :
    ConversationAliases
    → AuthTokens
    → Option Text
    → Option Text
    → Option ℕ
    → Result (List StoredConversation) ConversationError
    → NameLookup
    → (ℕ → ℕ → Option (List ℕ))
    → ConversationAliases × Result (Page ConversationItem) StatusCode
unfolding prepared
conversation_page aliases tokens authorization cursor_text requested repository lookup random =
    answered aliases random (prepared tokens authorization cursor_text requested repository lookup)

abbrev pub u16_max : ℕ
u16_max = 65535

-- `u16::try_from`.
abbrev pub to_u16 : ℕ → Result ℕ StatusCode
to_u16 n = if leb n u16_max then ok n else err unprocessable_entity

-- `ConversationRepository::messages_for`.
abbrev pub MessageRepository : Type 0
MessageRepository = Text → ℕ → ℕ → Result (List StoredMessage) ConversationError

-- One row more than the limit is fetched, to see whether there are more.
unfoldable pub fetched_page :
    MessageRepository → Text → PageCursor → ℕ → Result (Page StoredMessage) StatusCode
fetched_page repository key cursor limit = do
  offset ← to_u16 cursor.offset
  fetch_limit ← to_u16 (saturating_add limit 1)
  rows ← map_err conversation_status (repository key fetch_limit offset)
  let items = take limit rows
  ok (record {
    items = items;
    next_cursor = next_cursor (ltb limit (length rows)) cursor (length items);
  })

pub record MessageItem : Type 0 where
  pub message_id : Text
  pub timestamp_unix_millis : ℕ
  pub direction : MessageDirection
  pub peer_address : Text
  pub body : Text
  pub read : Bool
  pub outgoing_state : Option Text

unfoldable pub message_item : StoredMessage → MessageItem
message_item row = record {
  message_id = hex_digits 16 row.local_id;
  timestamp_unix_millis = row.timestamp_unix_millis;
  direction = row.direction;
  peer_address = row.address;
  body = row.body;
  read = row.read;
  outgoing_state = row.outgoing_state;
}

pub record ConversationMessagesRequest : Type 0 where
  pub conversation_id : Text
  pub cursor : Option Text
  pub limit : Option ℕ

unfoldable pub conversation_messages :
    ConversationAliases
    → AuthTokens
    → Option Text
    → (List ℕ → Option ConversationMessagesRequest)
    → List ℕ
    → MessageRepository
    → Result (Page MessageItem) StatusCode
unfolding message_item fetched_page
conversation_messages aliases tokens authorization from_slice body repository = do
  authorize tokens authorization
  ensure (not (ltb 4096 (length body))) payload_too_large
  request ← ok_or (from_slice body) bad_request
  cursor ← map_err conversation_status (parse request.cursor)
  limit ← page_limit request.limit
  key ← ok_or (key_for aliases request.conversation_id) gone
  page ← fetched_page repository key cursor limit
  ok (record { items = map message_item page.items; next_cursor = page.next_cursor })
