-- ===== src/Daemon/Conversations.antt =====
-- crates/analogconnectd/src/conversations.rs: the conversations as the clients see them.
-- A 64-bit signed timestamp is the number of milliseconds since the least such time, in which it
-- keeps its order.
pub mod Cursor
pub mod Aliases
pub mod Repository
use analogconnect.Base.{ℕ, Bool, Option}
use analogconnect.Base.Text.{Text}

abbrev pub default_page_size : ℕ
default_page_size = 50

abbrev pub max_page_size : ℕ
max_page_size = 100

pub data ConversationError : Type 0 where
  unavailable expired invalid_cursor random_unavailable : ConversationError

pub data MessageDirection : Type 0 where
  received sent : MessageDirection

pub record StoredConversation : Type 0 where
  pub conversation_key : Text
  pub display_address : Text
  pub participant_count : ℕ
  pub latest_unix_millis : ℕ
  pub message_count : ℕ
  pub unread_count : ℕ
  pub latest_outgoing_state : Option Text
  pub latest_preview : Text
  pub latest_sender : Text
  pub latest_sent : Bool
  pub group_title : Option Text
  pub is_ancs_group : Bool
  pub identity_conflict : Bool

pub record StoredMessage : Type 0 where
  pub local_id : ℕ
  pub address : Text
  pub conversation_key : Text
  pub timestamp_unix_millis : ℕ
  pub direction : MessageDirection
  pub body : Text
  pub read : Bool
  pub outgoing_state : Option Text
