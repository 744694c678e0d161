-- ===== src/Daemon/Ancs/Attributes.antt =====
-- The requests for a notification's attributes, and `parse_attributes`, which reads a response.
-- A UID is its four bytes.
pub mod RoundTrip
use analogconnect.Base.{
  ℕ, ◌+◌, ◌-◌, ◌*◌, Option, none, some, List, [], ◌∷◌, ◌++◌, not, ◌||◌, ltb, leb, ◌==◌, length,
  take, drop, get_elem?, get_or, if◌then◌else◌,
}
use analogconnect.Base.Options.{◌>>=◌, ◌>>◌, guard}
use analogconnect.Base.Words.{to_le_bytes}

abbrev pub attribute_ids : List ℕ
attribute_ids = 0 ∷ 1 ∷ 2 ∷ 4 ∷ 5 ∷ 6 ∷ 7 ∷ []

-- Rust's `get` of a range that starts within or past the end.
abbrev pub get_range : List ℕ → ℕ → ℕ → Option (List ℕ)
get_range bytes start end =
    if leb end (length bytes) then some (take (end - start) (drop start bytes)) else none

abbrev requested : List ℕ → List ℕ
requested [] = []
requested (id ∷ ids) = id ∷ (to_le_bytes 2 256 ++ requested ids)

unfoldable pub attribute_request : List ℕ → List ℕ
attribute_request uid = 0 ∷ (uid ++ (0 ∷ (requested (1 ∷ 2 ∷ []) ++ (4 ∷ 5 ∷ 6 ∷ 7 ∷ []))))

-- The loop over the attributes expected, from an offset on; it ends with the values and the offset
-- after them.
unfoldable pub read_attributes : List ℕ → List ℕ → ℕ → Option (List (List ℕ) × ℕ)
read_attributes [] bytes offset = some ([], offset)
read_attributes (expected ∷ ids) bytes offset = do
  id ← get_elem? bytes offset
  guard (id == expected)
  low ← get_elem? bytes (offset + 1)
  high ← get_elem? bytes (offset + 2)
  let start = offset + 3
  let end = start + (low + 256 * high)
  value ← get_range bytes start end
  rest ← read_attributes ids bytes end
  some (value ∷ rest.0, rest.1)

unfoldable pub parse_attributes : List ℕ → Option (List (List ℕ) × ℕ)
unfolding read_attributes
parse_attributes bytes =
    if ltb (length bytes) 5 || not (get_or bytes 0 0 == 0)
    then none
    else read_attributes attribute_ids bytes 5
