-- ===== src/Daemon/Messages/Operations.antt =====
-- `OutboundMessage`, `MessageOperationId` and `MessageOperationRegistry`: what may be sent, and the
-- suppression of duplicates. A hash set is a list without repetition, whose order nothing observes.
pub mod Remembered
use analogconnect.Base.{
  ℕ, suc, max, Bool, true, false, not, ◌&&◌, ◌||◌, List, [], ◌∷◌, ◌++◌, Result, ok, err, ◌>>◌,
  ensure, length, filter, all, any, contains, ltb, leb, ◌==◌, if◌then◌else◌, map,
}
use analogconnect.Base.Text.{
  Text, len, trim, member, same, is_ascii_digit, is_ascii_hexdigit, to_ascii_lowercase, as_bytes,
}

pub data OutboundMessageError : Type 0 where
  invalid_recipient invalid_body invalid_operation_id transport_failed : OutboundMessageError

pub record OutboundMessage : Type 0 where
  pub recipient : Text
  pub body : Text

abbrev is_recipient_char : ℕ → Bool
is_recipient_char c =
    is_ascii_digit c || c == b'+' || c == b'-' || c == b'(' || c == b')' || c == b' '

unfoldable pub new_message : Text → Text → Result OutboundMessage OutboundMessageError
unfolding len trim
new_message raw_recipient body =
    let recipient = trim raw_recipient in
    ensure
      (not (
        ltb (len recipient) 3
        || ltb 32 (len recipient)
        || not (all is_recipient_char recipient)
        || not (any is_ascii_digit recipient)))
      invalid_recipient
    >> ensure (not (len body == 0 || ltb 2000 (len body) || contains 0 body)) invalid_body
    >> ok (record { recipient = recipient; body = body })

-- `MessageOperationId::new`.
unfoldable pub new_operation_id : Text → Result Text OutboundMessageError
unfolding len as_bytes is_ascii_hexdigit to_ascii_lowercase
new_operation_id value =
    if not (len value == 32) || not (all is_ascii_hexdigit (as_bytes value))
    then err invalid_operation_id
    else ok (map to_ascii_lowercase value)

pub data MessageOperationStart : Type 0 where
  new_operation in_flight_already accepted_duplicate : MessageOperationStart

pub record MessageOperationRegistry : Type 0 where
  pub capacity : ℕ
  pub in_flight : List Text
  pub accepted : List Text
  pub accepted_order : List Text

unfoldable pub new_registry : ℕ → MessageOperationRegistry
new_registry capacity = record {
  capacity = max capacity 1;
  in_flight = [];
  accepted = [];
  accepted_order = [];
}

-- `HashSet::insert` and `HashSet::remove`.
abbrev pub insert_id : Text → List Text → List Text
insert_id id ids = if member id ids then ids else id ∷ ids

abbrev pub remove_id : Text → List Text → List Text
remove_id id ids = filter (λ other. not (same other id)) ids

unfoldable pub begin_operation :
    MessageOperationRegistry → Text → MessageOperationRegistry × MessageOperationStart
begin_operation r id =
    if member id r.accepted
    then (r, accepted_duplicate)
    else if member id r.in_flight
    then (r, in_flight_already)
    else (record r { in_flight = insert_id id r.in_flight }, new_operation)

-- The loop that forgets the oldest identifiers: the order and the set that it leaves.
unfoldable pub expire : ℕ → List Text → List Text → List Text × List Text
expire capacity [] accepted = ([], accepted)
expire capacity (expired ∷ order) accepted =
    let rest = expire capacity order (remove_id expired accepted) in
    if ltb capacity (length (expired ∷ order)) then rest else (expired ∷ order, accepted)

abbrev pub settled :
    MessageOperationRegistry → Text → List Text × List Text → MessageOperationRegistry
settled r id (order, accepted) = record r {
  in_flight = remove_id id r.in_flight;
  accepted = accepted;
  accepted_order = order;
}

unfoldable pub accept : MessageOperationRegistry → Text → MessageOperationRegistry
accept r id =
    let order = if member id r.accepted then r.accepted_order else r.accepted_order ++ (id ∷ []) in
    settled r id (expire r.capacity order (insert_id id r.accepted))

unfoldable pub fail : MessageOperationRegistry → Text → MessageOperationRegistry
fail r id = record r { in_flight = remove_id id r.in_flight }

-- What requests do to the registry, in any interleaving: one begins, and one whose sending is in
-- flight ends with success or not.
pub data OperationEvent : Type 0 where
  begins : Text → OperationEvent
  ends : Text → Bool → OperationEvent

-- The registry, and the identifiers of the messages that were sent, the oldest first.
unfoldable pub step :
    MessageOperationRegistry × List Text → OperationEvent → MessageOperationRegistry × List Text
step (r, log) (begins id) = ((begin_operation r id).0, log)
step (r, log) (ends id succeeded) =
    if not (member id r.in_flight)
    then (r, log)
    else if succeeded
    then (accept r id, log ++ (id ∷ []))
    else (fail r id, log)

unfoldable pub run :
    MessageOperationRegistry × List Text
    → List OperationEvent
    → MessageOperationRegistry × List Text
run s [] = s
run s (event ∷ events) = run (step s event) events
