-- ===== src/Base/Words.antt =====
-- Machine words: saturating counters, and byte sequences of a fixed width in either order.
use Prim.Native.Nat.{ℕ, zero, suc, ◌+◌, ◌-◌, ◌*◌, ◌/◌, ◌%◌, ◌^◌, ◌<◌, min}
use mathlib.Core.Path.{◌≡◌, refl, ap, ◌∙◌}
use mathlib.Core.List.{List, [], ◌∷◌, ◌++◌, reverse, reverse-reverse, reverse-cons}
use native.Mathlib.Omega.{arith}
use native.Mathlib.Nat.{pow-suc}
use analogconnect.Base.Lists.{length, length-reverse}

abbrev pub u64_max : ℕ
u64_max = 2 ^ 64 - 1

abbrev pub i64_max : ℕ
i64_max = 2 ^ 63 - 1

-- `u64::saturating_add`.
abbrev pub saturating_add : ℕ → ℕ → ℕ
saturating_add a b = min (a + b) u64_max

-- `to_le_bytes` of a word of `k` bytes, and `from_le_bytes`.
unfoldable pub to_le_bytes : ℕ → ℕ → List ℕ
to_le_bytes zero n = []
to_le_bytes (suc k) n = n % 256 ∷ to_le_bytes k (n / 256)

unfoldable pub from_le_bytes : List ℕ → ℕ
from_le_bytes [] = 0
from_le_bytes (b ∷ bs) = b + 256 * from_le_bytes bs

unfoldable pub to_be_bytes : ℕ → ℕ → List ℕ
unfolding to_le_bytes
to_be_bytes k n = reverse (to_le_bytes k n)

unfoldable pub from_be_bytes : List ℕ → ℕ
unfolding from_le_bytes
from_be_bytes bs = from_le_bytes (reverse bs)

abbrev pub IsBytes : List ℕ → Type 0
IsBytes [] = Unit {0}
IsBytes (b ∷ bs) = (b < 256) × IsBytes bs

pub length-to_le_bytes : (k n : ℕ) → length (to_le_bytes k n) ≡ k
unfolding to_le_bytes
length-to_le_bytes zero n = refl
length-to_le_bytes (suc k) n = ap suc (length-to_le_bytes k (n / 256))

pub to_le_bytes-IsBytes : (k n : ℕ) → IsBytes (to_le_bytes k n)
unfolding to_le_bytes
to_le_bytes-IsBytes zero n = tt
to_le_bytes-IsBytes (suc k) n = (omega arith, to_le_bytes-IsBytes k (n / 256))

pub from_le_bytes-to_le_bytes : (k n : ℕ) → n < 256 ^ k → from_le_bytes (to_le_bytes k n) ≡ n
unfolding from_le_bytes to_le_bytes
from_le_bytes-to_le_bytes zero n h = omega arith
from_le_bytes-to_le_bytes (suc k) n h =
    omega
      (arith, pow-suc 256 k, from_le_bytes-to_le_bytes k (n / 256) (omega (arith, pow-suc 256 k)))

pub to_le_bytes-from_le_bytes :
    (bs : List ℕ) → IsBytes bs → to_le_bytes (length bs) (from_le_bytes bs) ≡ bs
unfolding from_le_bytes to_le_bytes
to_le_bytes-from_le_bytes [] h = refl
to_le_bytes-from_le_bytes (b ∷ bs) h =
    let low : (b + 256 * from_le_bytes bs) % 256 ≡ b = omega arith in
    let high : (b + 256 * from_le_bytes bs) / 256 ≡ from_le_bytes bs = omega arith in
    rw (low, high) (ap (◌∷◌ b) (to_le_bytes-from_le_bytes bs h.1))

pub from_le_bytes-lt : (bs : List ℕ) → IsBytes bs → from_le_bytes bs < 256 ^ length bs
unfolding from_le_bytes
from_le_bytes-lt [] h = omega arith
from_le_bytes-lt (b ∷ bs) h = omega (arith, pow-suc 256 (length bs), from_le_bytes-lt bs h.1)

pub from_be_bytes-to_be_bytes : (k n : ℕ) → n < 256 ^ k → from_be_bytes (to_be_bytes k n) ≡ n
unfolding from_be_bytes to_be_bytes
from_be_bytes-to_be_bytes k n h =
    ap from_le_bytes (reverse-reverse (to_le_bytes k n)) ∙ from_le_bytes-to_le_bytes k n h

pub IsBytes-append : (xs ys : List ℕ) → IsBytes xs → IsBytes ys → IsBytes (xs ++ ys)
IsBytes-append [] ys h k = k
IsBytes-append (x ∷ xs) ys h k = (h.0, IsBytes-append xs ys h.1 k)

pub IsBytes-reverse : (xs : List ℕ) → IsBytes xs → IsBytes (reverse xs)
IsBytes-reverse [] h = tt
IsBytes-reverse (x ∷ xs) h =
    rw (reverse-cons x xs) (IsBytes-append (reverse xs) (x ∷ []) (IsBytes-reverse xs h.1) (h.0, tt))

pub length-to_be_bytes : (k n : ℕ) → length (to_be_bytes k n) ≡ k
unfolding to_be_bytes
length-to_be_bytes k n = length-reverse (to_le_bytes k n) ∙ length-to_le_bytes k n

pub to_be_bytes-IsBytes : (k n : ℕ) → IsBytes (to_be_bytes k n)
unfolding to_be_bytes
to_be_bytes-IsBytes k n = IsBytes-reverse (to_le_bytes k n) (to_le_bytes-IsBytes k n)

pub to_be_bytes-from_be_bytes :
    (bs : List ℕ) → IsBytes bs → to_be_bytes (length bs) (from_be_bytes bs) ≡ bs
unfolding from_be_bytes to_be_bytes
to_be_bytes-from_be_bytes bs h =
    rw (← length-reverse bs, to_le_bytes-from_le_bytes (reverse bs) (IsBytes-reverse bs h))
      (reverse-reverse bs)

pub from_be_bytes-lt : (bs : List ℕ) → IsBytes bs → from_be_bytes bs < 256 ^ length bs
unfolding from_be_bytes
from_be_bytes-lt bs h =
    rw (← length-reverse bs) (from_le_bytes-lt (reverse bs) (IsBytes-reverse bs h))
