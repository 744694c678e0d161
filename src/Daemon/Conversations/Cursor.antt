-- ===== src/Daemon/Conversations/Cursor.antt =====
-- `PageCursor`: the offset of a page, shown as sixteen hexadecimal digits.
use analogconnect.Base.{
  ℕ, zero, suc, ◌+◌, ◌*◌, ◌/◌, ◌%◌, ◌^◌, ◌<◌, ◌≤◌, min, ◌≡◌, refl, ap, ap₂, ◌∙◌, Bool, true, ◌&&◌,
  Option, none, some, [], ◌∷◌, ◌++◌, Result, ok, ◌>>=◌, ◌>>◌, ensure, ok_or, length, length-append,
  all, ltb, leb, ◌==◌, if◌then◌else◌, arith, le→leb,
}
use analogconnect.Base.Text.{Text, as_bytes, len, is_ascii, as_bytes_of_ascii, is_ascii_hexdigit}
use analogconnect.Base.Words.{saturating_add, u64_max}
use analogconnect.Daemon.Conversations.{ConversationError, invalid_cursor}
use native.Mathlib.Nat.{pow-suc}
use analogconnect.Daemon.Hex.{hex_digit, hex_digit_ascii, decode_nibble, decode_nibble-hex_digit}

abbrev pub max_cursor_offset : ℕ
max_cursor_offset = 1000000

pub record PageCursor : Type 0 where
  pub offset : ℕ

-- `usize::from_str_radix(value, 16)` of hexadecimal digits: `None` if there are none, or if the number
-- does not fit in 64 bits.
abbrev pub digit_value : Option ℕ → ℕ
digit_value none = 0
digit_value (some value) = value

unfoldable pub from_hex : ℕ → Text → ℕ
from_hex number [] = number
from_hex number (c ∷ digits) = from_hex (number * 16 + digit_value (decode_nibble c)) digits

abbrev pub from_str_radix_16 : Text → Option ℕ
from_str_radix_16 [] = none
from_str_radix_16 (c ∷ digits) =
    let number = from_hex 0 (c ∷ digits) in if leb number u64_max then some number else none

unfoldable pub parse_text : Text → Result PageCursor ConversationError
unfolding len from_hex
parse_text value = do
  ensure (len value == 16 && all is_ascii_hexdigit (as_bytes value)) invalid_cursor
  offset ← ok_or (from_str_radix_16 value) invalid_cursor
  ensure (leb offset max_cursor_offset) invalid_cursor
  ok (record { offset = offset })

abbrev pub parse : Option Text → Result PageCursor ConversationError
parse none = ok (record { offset = 0 })
parse (some value) = parse_text value

-- The last digits of a number, as many as a width.
unfoldable pub hex_digits : ℕ → ℕ → Text
hex_digits zero number = []
hex_digits (suc width) number = hex_digits width (number / 16) ++ (hex_digit (number % 16) ∷ [])

-- `format!("{:016x}", self.0)` of a 64-bit number, which has at most sixteen digits.
abbrev pub encode_cursor : PageCursor → Text
encode_cursor cursor = hex_digits 16 cursor.offset

abbrev pub advance : PageCursor → ℕ → PageCursor
advance cursor count = record {
  offset = min (saturating_add cursor.offset count) max_cursor_offset;
}

from_hex-append :
    (number : ℕ) (digits : Text) (c : ℕ)
    → from_hex number (digits ++ (c ∷ []))
      ≡ from_hex number digits * 16 + digit_value (decode_nibble c)
unfolding from_hex
from_hex-append number [] c = refl
from_hex-append number (d ∷ digits) c =
    from_hex-append (number * 16 + digit_value (decode_nibble d)) digits c

length-hex_digits : (width number : ℕ) → length (hex_digits width number) ≡ width
unfolding hex_digits
length-hex_digits zero number = refl
length-hex_digits (suc width) number = omega (
  arith,
  length-append (hex_digits width (number / 16)) (hex_digit (number % 16) ∷ []),
  length-hex_digits width (number / 16),
)

from_hex-hex_digits :
    (width number : ℕ) → number < 16 ^ width → from_hex 0 (hex_digits width number) ≡ number
unfolding hex_digits from_hex
from_hex-hex_digits zero number h = omega arith
from_hex-hex_digits (suc width) number h =
    let small : number / 16 < 16 ^ width = omega (arith, pow-suc 16 width) in
    let ih = from_hex-hex_digits width (number / 16) small in
    let last : digit_value (decode_nibble (hex_digit (number % 16))) ≡ number % 16 =
      ap digit_value (decode_nibble-hex_digit (number % 16) (ground arith)) in
    from_hex-append 0 (hex_digits width (number / 16)) (hex_digit (number % 16))
    ∙ ap₂ (λ a b. a * 16 + b) ih last
    ∙ omega arith

all-append :
    (p : ℕ → Bool) (xs : Text) (c : ℕ)
    → all p xs ≡ true
    → p c ≡ true
    → all p (xs ++ (c ∷ [])) ≡ true
all-append p [] c h k = ground arith
all-append p (x ∷ xs) c h k = ground (arith, all-append p xs c)

hex_digit_hexdigit : (n : ℕ) → n < 16 → is_ascii_hexdigit (hex_digit n) ≡ true
unfolding hex_digit is_ascii_hexdigit
hex_digit_hexdigit n h = ground arith

hex_digits_hexdigits : (width number : ℕ) → all is_ascii_hexdigit (hex_digits width number) ≡ true
unfolding hex_digits
hex_digits_hexdigits zero number = refl
hex_digits_hexdigits (suc width) number =
    all-append is_ascii_hexdigit (hex_digits width (number / 16)) (hex_digit (number % 16))
      (hex_digits_hexdigits width (number / 16)) (hex_digit_hexdigit (number % 16) (omega arith))

hex_digits_ascii : (width number : ℕ) → is_ascii (hex_digits width number) ≡ true
unfolding hex_digits
hex_digits_ascii zero number = refl
hex_digits_ascii (suc width) number =
    all-append (λ c. ltb c 0x80) (hex_digits width (number / 16)) (hex_digit (number % 16))
      (hex_digits_ascii width (number / 16)) (hex_digit_ascii (number % 16) (ground arith))

from_str_radix_16-digits :
    (digits : Text)
    → 0 < length digits
    → from_hex 0 digits ≤ u64_max
    → from_str_radix_16 digits ≡ some (from_hex 0 digits)
from_str_radix_16-digits [] long small = absurd (omega arith)
from_str_radix_16-digits (c ∷ digits) long small = rw (le→leb _ _ small) refl

-- A cursor within the limit is read back from its text.
pub parse-encode_cursor :
    (cursor : PageCursor)
    → cursor.offset ≤ max_cursor_offset
    → parse (some (encode_cursor cursor)) ≡ ok cursor
unfolding parse_text len
parse-encode_cursor cursor small =
    let text = encode_cursor cursor in
    let bytes : as_bytes text ≡ text = as_bytes_of_ascii text (hex_digits_ascii 16 cursor.offset) in
    let size = length-hex_digits 16 cursor.offset in
    let value = from_hex-hex_digits 16 cursor.offset (omega arith) in
    let read : from_str_radix_16 text ≡ some cursor.offset =
      from_str_radix_16-digits text (omega (arith, size)) (omega (arith, value)) ∙ ap some value in
    rw (bytes, size, hex_digits_hexdigits 16 cursor.offset, read, le→leb _ _ small) refl
