-- ===== src/Daemon/Conversations/Repository.antt =====
-- `InMemoryConversationRepository`: the stored rows in their order, and one range of them.
-- `sort_by` is stable, and so is the insertion sort here; `str` is ordered by its bytes, which is the
-- order of its characters.
use analogconnect.Base.{
  ℕ, ◌+◌, ◌-◌, min, Bool, true, false, List, [], ◌∷◌, Result, ok, length, take, drop, filter, ltb,
  ◌||◌, ◌==◌, if◌then◌else◌,
}
use analogconnect.Base.Text.{Text, same}
use analogconnect.Daemon.Conversations.{ConversationError, StoredConversation, StoredMessage}

module _ {A : Type 0} (not_after : A → A → Bool) where
  unfoldable pub insert_sorted : A → List A → List A
  insert_sorted x [] = x ∷ []
  insert_sorted x (y ∷ ys) = if not_after x y then x ∷ y ∷ ys else y ∷ insert_sorted x ys

  unfoldable pub sort_by : List A → List A
  unfolding insert_sorted
  sort_by [] = []
  sort_by (x ∷ xs) = insert_sorted x (sort_by xs)

unfoldable pub text_at_most : Text → Text → Bool
text_at_most [] t = true
text_at_most (a ∷ s) [] = false
text_at_most (a ∷ s) (b ∷ t) = if a == b then text_at_most s t else ltb a b

-- The latest first, and then by the key.
abbrev pub conversation_not_after : StoredConversation → StoredConversation → Bool
conversation_not_after left right =
    if left.latest_unix_millis == right.latest_unix_millis
    then text_at_most left.conversation_key right.conversation_key
    else ltb right.latest_unix_millis left.latest_unix_millis

-- The latest first, and then the greatest identifier.
abbrev pub message_not_after : StoredMessage → StoredMessage → Bool
message_not_after left right =
    if left.timestamp_unix_millis == right.timestamp_unix_millis
    then ltb right.local_id left.local_id || left.local_id == right.local_id
    else ltb right.timestamp_unix_millis left.timestamp_unix_millis

pub record InMemoryConversationRepository : Type 0 where
  pub conversations : List StoredConversation
  pub messages : List StoredMessage

unfoldable pub stored_conversations :
    InMemoryConversationRepository → Result (List StoredConversation) ConversationError
unfolding sort_by text_at_most
stored_conversations repository = ok (sort_by conversation_not_after repository.conversations)

abbrev pub has_key : Text → StoredMessage → Bool
has_key key message = same message.conversation_key key

unfoldable pub ordered_messages : InMemoryConversationRepository → Text → List StoredMessage
unfolding sort_by
ordered_messages repository key =
    sort_by message_not_after (filter (has_key key) repository.messages)

-- `rows[start..end]`, with both bounds within the rows.
abbrev pub range {ℓ} : {A : Type ℓ} → List A → ℕ → ℕ → List A
range rows start end = take (end - start) (drop start rows)

unfoldable pub messages_for :
    InMemoryConversationRepository → Text → ℕ → ℕ → Result (List StoredMessage) ConversationError
unfolding ordered_messages
messages_for repository key limit offset =
    let rows = ordered_messages repository key in
    let start = min offset (length rows) in
    let end = min (start + limit) (length rows) in ok (range rows start end)
