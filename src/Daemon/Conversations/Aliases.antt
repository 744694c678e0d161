-- ===== src/Daemon/Conversations/Aliases.antt =====
-- `ConversationAliases`: the identifiers under which conversations are shown to the clients.
-- A hash map is a list of entries, the latest first; a random source is what its successive calls give,
-- `None` for a failure.
pub mod Resolved
use analogconnect.Base.{
  ℕ, zero, suc, Bool, true, false, not, ◌&&◌, Option, none, some, List, [], ◌∷◌, Result, ok, err,
  if◌then◌else◌,
}
use analogconnect.Base.Text.{Text, same}
use analogconnect.Daemon.Conversations.{ConversationError, random_unavailable}
use analogconnect.Daemon.Hex.{encode_hex}

abbrev pub TextMap : Type 0
TextMap = List (Text × Text)

unfoldable pub get : TextMap → Text → Option Text
unfolding same
get [] key = none
get ((k, v) ∷ entries) key = if same k key then some v else get entries key

abbrev pub insert : TextMap → Text → Text → TextMap
insert map key value = (key, value) ∷ map

abbrev pub is_some : Option Text → Bool
is_some none = false
is_some (some value) = true

pub record ConversationAliases : Type 0 where
  pub key_to_id : TextMap
  pub id_to_key : TextMap

abbrev pub default_aliases : ConversationAliases
default_aliases = record { key_to_id = []; id_to_key = [] }

-- Both insertions.
abbrev pub bind : ConversationAliases → Text → Text → ConversationAliases
bind a key id = record {
  key_to_id = insert a.key_to_id key id;
  id_to_key = insert a.id_to_key id key;
}

-- By whose the identifier is already, if anybody's.
abbrev pub exposed :
    ConversationAliases → Text → Option Text → ConversationAliases × Result Text ConversationError
exposed a key none = (bind a key key, ok key)
exposed a key (some existing_key) =
    if not (same existing_key key) then (a, err random_unavailable) else (bind a key key, ok key)

abbrev pub known_or :
    ConversationAliases
    → Option Text
    → ConversationAliases × Result Text ConversationError
    → ConversationAliases × Result Text ConversationError
known_or a (some existing) other = (a, ok existing)
known_or a none other = other

unfoldable pub expose_stable_id :
    ConversationAliases → Text → ConversationAliases × Result Text ConversationError
expose_stable_id a key = known_or a (get a.key_to_id key) (exposed a key (get a.id_to_key key))

-- One turn of the loop, with what the turns after it give.
abbrev pub drawn :
    ConversationAliases
    → Text
    → Option (List ℕ)
    → ConversationAliases × Result Text ConversationError
    → ConversationAliases × Result Text ConversationError
drawn a key none later = (a, err random_unavailable)
drawn a key (some bytes) later =
    let id = encode_hex bytes in
    if not (is_some (get a.id_to_key id)) then (bind a key id, ok id) else later

unfoldable pub draw :
    ℕ
    → ConversationAliases
    → Text
    → (ℕ → Option (List ℕ))
    → ConversationAliases × Result Text ConversationError
draw zero a key random = (a, err random_unavailable)
draw (suc tries) a key random = drawn a key (random 0) (draw tries a key (λ n. random (suc n)))

unfoldable pub id_for :
    ConversationAliases
    → Text
    → (ℕ → Option (List ℕ))
    → ConversationAliases × Result Text ConversationError
id_for a key random = known_or a (get a.key_to_id key) (draw 4 a key random)

unfoldable pub key_for : ConversationAliases → Text → Option Text
key_for a id = get a.id_to_key id
