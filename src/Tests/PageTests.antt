-- ===== src/Tests/PageTests.antt =====
-- Conversations and their pages, of crates/analogconnectd/src/conversations.rs and lib.rs.
use analogconnect.Base.{
  ℕ, ◌+◌, ◌≡◌, refl, false, Option, none, some, List, [], ◌∷◌, Result, ok, err, replicate, arith,
}
use analogconnect.Base.Text.{Text, chars, as_bytes, len, same, is_ascii_hexdigit}
use analogconnect.Daemon.Auth.{AuthTokens, matches_token, matches_tokens, only_current}
use analogconnect.Daemon.Conversations.{StoredConversation, StoredMessage, invalid_cursor, received}
use analogconnect.Daemon.Conversations.Aliases.{
  ConversationAliases, default_aliases, get, draw, id_for, expose_stable_id, key_for,
}
use analogconnect.Daemon.Conversations.Aliases.Resolved
use analogconnect.Daemon.Conversations.Aliases.Resolved.{AliasOp, exposes, asks, key_for-run}
use analogconnect.Daemon.Conversations.Cursor.{PageCursor, parse, parse_text, hex_digits}
use analogconnect.Daemon.Conversations.Repository.{
  InMemoryConversationRepository, messages_for, ordered_messages, sort_by,
}
use analogconnect.Daemon.Hex.{encode_hex, hex_digit}
use analogconnect.Daemon.Server.Guards.{
  StatusCode, authorize, strip_prefix, page_limit, unprocessable_entity,
}
use analogconnect.Daemon.Server.Pages.{
  Page, ConversationItem, NameLookup, conversation_page, prepared, display_names, item_loop,
  item_of, fetched_page,
}
use analogconnect.Daemon.Server.Pages.Walk.{page_of, walk, shown_page, walk-shown_page}
use analogconnect.Daemon.Server.Pages.Fetched.{fetched_page-page_of}
use analogconnect.Daemon.Server.Pages.Shown.{IsShown, conversation_page-IsShown}

abbrev bytes_of : ℕ → ℕ → Option (List ℕ)
bytes_of seed n = some (replicate 16 (seed + n))

abbrev earlier : List AliasOp
earlier = exposes (chars "group") ∷ asks (chars "ann") (bytes_of 1) ∷ []

-- The first bytes drawn are those of an identifier that is taken.
abbrev asked : AliasOp
asked = asks (chars "bob") (bytes_of 1)

bob_id :
    (Resolved.step (Resolved.run default_aliases earlier) asked).1
    ≡ ok (encode_hex (replicate 16 2))
unfolding expose_stable_id id_for draw get same encode_hex
bob_id = refl

key_for-run_example :
    key_for
      (Resolved.run (Resolved.step (Resolved.run default_aliases earlier) asked).0 earlier)
      (encode_hex (replicate 16 2))
    ≡ some (chars "bob")
key_for-run_example = key_for-run earlier earlier asked (encode_hex (replicate 16 2)) bob_id

abbrev conversation : Text → ℕ → StoredConversation
conversation key time = record {
  conversation_key = key;
  display_address = key;
  participant_count = 1;
  latest_unix_millis = time;
  message_count = 1;
  unread_count = 0;
  latest_outgoing_state = none;
  latest_preview = [];
  latest_sender = [];
  latest_sent = false;
  group_title = none;
  is_ancs_group = false;
  identity_conflict = false;
}

abbrev rows : List StoredConversation
rows =
    conversation (chars "ann") 9 ∷ conversation (chars "bob") 7 ∷ conversation (chars "cy") 5 ∷ []

walk-shown_page_example : walk (shown_page rows 2) 4 none ≡ some rows
walk-shown_page_example = walk-shown_page rows 2 (omega arith) (omega arith) (omega arith)

shown_cursor :
    (shown_page rows 2 (record { offset = 0 })).next_cursor ≡ some (chars "0000000000000002")
unfolding hex_digits hex_digit
shown_cursor = refl

bad_cursor : parse (some (chars "zzzzzzzzzzzzzzzz")) ≡ err invalid_cursor
unfolding parse_text len is_ascii_hexdigit
bad_cursor = refl

abbrev no_names : NameLookup
no_names address = ok none

abbrev tokens : AuthTokens
tokens = only_current (record { token_bytes = chars "secret" })

abbrev aliases : ConversationAliases
aliases = Resolved.run default_aliases earlier

abbrev randoms : ℕ → ℕ → Option (List ℕ)
randoms row = bytes_of (row + 5)

abbrev answer : ConversationAliases × Result (Page ConversationItem) StatusCode
answer =
    conversation_page aliases tokens (some (chars "Bearer secret")) none (some 2) (ok rows) no_names
      randoms

abbrev first_page : Page ConversationItem
first_page = record {
  items =
      item_of (conversation (chars "ann") 9) none (encode_hex (replicate 16 1))
      ∷ item_of (conversation (chars "bob") 7) none (encode_hex (replicate 16 6))
      ∷ [];
  next_cursor = some (chars "0000000000000002");
}

answered_page : answer.1 ≡ ok first_page
unfolding conversation_page prepared display_names item_loop authorize strip_prefix matches_tokens
    matches_token page_limit expose_stable_id id_for draw get same encode_hex hex_digits hex_digit
    as_bytes
answered_page = refl

conversation_page-IsShown_example :
    (cursor : PageCursor) × (limit : ℕ) × (found : List StoredConversation) × IsShown tokens
      (some (chars "Bearer secret"))
      none
      (some 2)
      (ok rows)
      answer.0
      first_page
      cursor
      limit
      found
conversation_page-IsShown_example =
    conversation_page-IsShown earlier tokens (some (chars "Bearer secret")) none (some 2) (ok rows)
      no_names randoms first_page answered_page

abbrev message : ℕ → ℕ → StoredMessage
message id time = record {
  local_id = id;
  address = chars "ann";
  conversation_key = chars "ann";
  timestamp_unix_millis = time;
  direction = received;
  body = chars "hello";
  read = false;
  outgoing_state = none;
}

abbrev repository : InMemoryConversationRepository
repository = record {
  conversations = rows;
  messages = message 1 5 ∷ message 2 8 ∷ message 3 5 ∷ [];
}

newest_first :
    ordered_messages repository (chars "ann") ≡ message 2 8 ∷ message 3 5 ∷ message 1 5 ∷ []
unfolding ordered_messages sort_by same
newest_first = refl

-- The cursor of a page may be one that the next request is refused for.
refused_offset :
    fetched_page (messages_for repository) (chars "ann") (record { offset = 65600 }) 100
    ≡ err unprocessable_entity
refused_offset =
    fetched_page-page_of repository (chars "ann") (record { offset = 65600 }) 100 (omega arith)

fetched_page-page_of_example :
    fetched_page (messages_for repository) (chars "ann") (record { offset = 1 }) 2
    ≡ ok (page_of (ordered_messages repository (chars "ann")) (record { offset = 1 }) 2)
fetched_page-page_of_example =
    fetched_page-page_of repository (chars "ann") (record { offset = 1 }) 2 (omega arith)
