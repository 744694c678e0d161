-- ===== src/Base/Text.antt =====
-- Rust's `str` and `char` as the daemon uses them: a text is the list of its characters' code points,
-- its bytes are its UTF-8 encoding, and its length counts bytes.
use Prim.Native.Nat.{ℕ, zero, suc, ◌+◌, ◌-◌, ◌*◌, ◌/◌, ◌%◌}
use Prim.Native.Char.{code}
use Prim.Native.String.{String}
use mathlib.Core.Path.{◌≡◌, refl}
use mathlib.Core.Logic.{◌↔◌}
use mathlib.Core.Bool.{Bool, true, false, not, ◌&&◌, ◌||◌}
use mathlib.Core.List.{List, [], ◌∷◌, ◌++◌, reverse}
use native.Mathlib.Omega.{arith}
use analogconnect.Base.Tests.{ltb, leb, ◌==◌, if◌then◌else◌}
use analogconnect.Base.Lists.{length, all, drop, get_or}

abbrev pub Text : Type 0
Text = List ℕ

-- A literal's characters.
abbrev pub chars : String → Text
chars String.[] = []
chars (String.◌∷◌ c s) = code c ∷ chars s

unfoldable pub utf8_char : ℕ → List ℕ
utf8_char c =
    if ltb c 0x80
    then c ∷ []
    else if ltb c 0x800
    then (0xc0 + c / 64) ∷ (0x80 + c % 64) ∷ []
    else if ltb c 0x10000
    then (0xe0 + c / 4096) ∷ (0x80 + c / 64 % 64) ∷ (0x80 + c % 64) ∷ []
    else (0xf0 + c / 262144) ∷ (0x80 + c / 4096 % 64) ∷ (0x80 + c / 64 % 64) ∷ (0x80 + c % 64) ∷ []

-- `str::as_bytes`.
unfoldable pub as_bytes : Text → List ℕ
unfolding utf8_char
as_bytes [] = []
as_bytes (c ∷ s) = utf8_char c ++ as_bytes s

-- `str::len`.
unfoldable pub len : Text → ℕ
unfolding as_bytes
len s = length (as_bytes s)

abbrev pub is_ascii : Text → Bool
is_ascii = all (λ c. ltb c 0x80)

abbrev pub is_ascii_digit : ℕ → Bool
is_ascii_digit c = leb b'0' c && leb c b'9'

unfoldable pub is_ascii_hexdigit : ℕ → Bool
is_ascii_hexdigit c = is_ascii_digit c || (leb b'a' c && leb c b'f') || (leb b'A' c && leb c b'F')

unfoldable pub to_ascii_lowercase : ℕ → ℕ
to_ascii_lowercase c = if leb b'A' c && leb c b'Z' then c + 32 else c

unfoldable pub to_ascii_uppercase : ℕ → ℕ
to_ascii_uppercase c = if leb b'a' c && leb c b'z' then c - 32 else c

-- `char::is_whitespace`: Unicode's White_Space.
unfoldable pub is_whitespace : ℕ → Bool
is_whitespace c =
    (leb 9 c && leb c 13)
    || c == 32
    || c == 0x85
    || c == 0xa0
    || c == 0x1680
    || (leb 0x2000 c && leb c 0x200a)
    || c == 0x2028
    || c == 0x2029
    || c == 0x202f
    || c == 0x205f
    || c == 0x3000

module _ (p : ℕ → Bool) where
  unfoldable pub trim_start_matches : Text → Text
  trim_start_matches [] = []
  trim_start_matches (c ∷ s) = if p c then trim_start_matches s else c ∷ s

  unfoldable pub trim_end_matches : Text → Text
  unfolding trim_start_matches
  trim_end_matches s = reverse (trim_start_matches (reverse s))

-- `str::trim`.
unfoldable pub trim : Text → Text
unfolding trim_start_matches trim_end_matches is_whitespace
trim s = trim_end_matches is_whitespace (trim_start_matches is_whitespace s)

-- Equality of byte sequences and of texts.
unfoldable pub same : List ℕ → List ℕ → Bool
same [] [] = true
same [] (y ∷ ys) = false
same (x ∷ xs) [] = false
same (x ∷ xs) (y ∷ ys) = x == y && same xs ys

pub same_refl : (xs : List ℕ) → same xs xs ≡ true
unfolding same
same_refl [] = refl
same_refl (x ∷ xs) = ground (arith, same_refl xs)

pub same→eq : (xs ys : List ℕ) → same xs ys ≡ true → xs ≡ ys
unfolding same
same→eq [] [] h = refl
same→eq [] (y ∷ ys) h = absurd (ground arith)
same→eq (x ∷ xs) [] h = absurd (ground arith)
same→eq (x ∷ xs) (y ∷ ys) h = ground (arith, same→eq xs ys)

pub same_iff : (xs ys : List ℕ) → (same xs ys ≡ true) ↔ (xs ≡ ys)
same_iff xs ys = (same→eq xs ys, λ e. rw e (same_refl ys))

-- `contains` on a sequence of byte strings or texts.
unfoldable pub member : List ℕ → List (List ℕ) → Bool
unfolding same
member a [] = false
member a (x ∷ xs) = same x a || member a xs

-- An ASCII text is its own bytes.
pub as_bytes_of_ascii : (s : Text) → is_ascii s ≡ true → as_bytes s ≡ s
unfolding as_bytes
as_bytes_of_ascii [] h = refl
as_bytes_of_ascii (c ∷ s) h = ground (arith, as_bytes_of_ascii s)

-- `String::from_utf8_lossy`: the character that starts with a byte, or U+FFFD, and how many of the
-- following bytes belong to it.
abbrev is_continuation : ℕ → Bool
is_continuation b = leb 0x80 b && leb b 0xbf

abbrev is_second_of_three : ℕ → ℕ → Bool
is_second_of_three b c =
    if b == 0xe0
    then leb 0xa0 c && leb c 0xbf
    else if b == 0xed
    then leb 0x80 c && leb c 0x9f
    else is_continuation c

abbrev is_second_of_four : ℕ → ℕ → Bool
is_second_of_four b c =
    if b == 0xf0
    then leb 0x90 c && leb c 0xbf
    else if b == 0xf4
    then leb 0x80 c && leb c 0x8f
    else is_continuation c

abbrev replacement : ℕ
replacement = 0xfffd

unfoldable pub lossy_char : ℕ → List ℕ → ℕ × ℕ
lossy_char b bs =
    let c = get_or bs 0 0 in
    let d = get_or bs 1 0 in
    let e = get_or bs 2 0 in
    if ltb b 0x80
    then (b, 0)
    else if leb 0xc2 b && leb b 0xdf
    then if is_continuation c then ((b - 0xc0) * 64 + (c - 0x80), 1) else (replacement, 0)
    else if leb 0xe0 b && leb b 0xef
    then if not (is_second_of_three b c)
      then (replacement, 0)
      else if not (is_continuation d)
      then (replacement, 1)
      else ((b - 0xe0) * 4096 + (c - 0x80) * 64 + (d - 0x80), 2)
    else if leb 0xf0 b && leb b 0xf4
    then if not (is_second_of_four b c)
      then (replacement, 0)
      else if not (is_continuation d)
      then (replacement, 1)
      else if not (is_continuation e)
      then (replacement, 2)
      else ((b - 0xf0) * 262144 + (c - 0x80) * 4096 + (d - 0x80) * 64 + (e - 0x80), 3)
    else (replacement, 0)

-- On fuel: a character takes one byte at least.
unfoldable lossy_chars : ℕ → List ℕ → Text
unfolding lossy_char
lossy_chars zero bs = []
lossy_chars (suc fuel) [] = []
lossy_chars (suc fuel) (b ∷ bs) =
    let next = lossy_char b bs in next.0 ∷ lossy_chars fuel (drop next.1 bs)

unfoldable pub from_utf8_lossy : List ℕ → Text
unfolding lossy_chars
from_utf8_lossy bs = lossy_chars (length bs) bs
