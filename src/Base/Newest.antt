-- ===== src/Base/Newest.antt =====
-- The last elements of a list, as many as a capacity.
use Prim.Native.Nat.{ℕ, ◌+◌, ◌-◌, ◌≤◌}
use mathlib.Core.Path.{◌≡◌, sym, ap, ◌∙◌}
use mathlib.Core.List.{List, ◌++◌}
use native.Mathlib.Omega.{arith}
use analogconnect.Base.Lists.{length, drop, length-append, length-drop, drop-append-le, drop-drop}

module _ {A : Type 0} where
  abbrev pub newest : ℕ → List A → List A
  newest capacity xs = drop (length xs - capacity) xs

  pub newest-newest : (c : ℕ) (xs ys : List A) → newest c (newest c xs ++ ys) ≡ newest c (xs ++ ys)
  newest-newest c xs ys =
      let n = length xs - c in
      let m = length (drop n xs ++ ys) - c in
      let total : n + m ≡ length (xs ++ ys) - c =
        omega (arith, length-append xs ys, length-append (drop n xs) ys, length-drop n xs) in
      ap (drop m) (sym (drop-append-le n xs ys (omega arith)))
      ∙ drop-drop m n (xs ++ ys)
      ∙ ap (λ k. drop k (xs ++ ys)) total

  pub length-newest : (c : ℕ) (xs : List A) → length (newest c xs) ≤ c
  length-newest c xs = omega (arith, length-drop (length xs - c) xs)
