-- ===== src/Base/Distinct.antt =====
-- Lists of byte strings without repetition.
use Prim.Native.Nat.{ℕ, zero, suc}
use mathlib.Core.Path.{◌≡◌, refl}
use mathlib.Core.Bool.{Bool, false, ◌||◌}
use mathlib.Core.List.{List, [], ◌∷◌, ◌++◌}
use mathlib.Core.Logic.{inl, inr}
use native.Mathlib.Omega.{arith}
use analogconnect.Base.Tests.{Bool-cases}
use analogconnect.Base.Lists.{drop, filter}
use analogconnect.Base.Text.{same, member}

abbrev pub Distinct : List (List ℕ) → Type 0
Distinct [] = Unit {0}
Distinct (x ∷ xs) = (member x xs ≡ false) × Distinct xs

-- One list comes of another by leaving elements out.
pub data Sublist : List (List ℕ) → List (List ℕ) → Type 0 where
  none_left : Sublist [] []
  left_out : {x : List ℕ} {xs ys : List (List ℕ)} → Sublist xs ys → Sublist xs (x ∷ ys)
  kept : {x : List ℕ} {xs ys : List (List ℕ)} → Sublist xs ys → Sublist (x ∷ xs) (x ∷ ys)

pub Sublist_refl : (xs : List (List ℕ)) → Sublist xs xs
Sublist_refl [] = none_left
Sublist_refl (x ∷ xs) = kept (Sublist_refl xs)

pub Sublist-drop : (n : ℕ) (xs : List (List ℕ)) → Sublist (drop n xs) xs
Sublist-drop zero xs = Sublist_refl xs
Sublist-drop (suc n) [] = none_left
Sublist-drop (suc n) (x ∷ xs) = left_out (Sublist-drop n xs)

pub Sublist-append_left :
    (xs : List (List ℕ)) {ys zs : List (List ℕ)} → Sublist ys zs → Sublist (xs ++ ys) (xs ++ zs)
Sublist-append_left [] s = s
Sublist-append_left (x ∷ xs) s = kept (Sublist-append_left xs s)

pub Sublist-append_right :
    {xs ys : List (List ℕ)} (zs : List (List ℕ)) → Sublist xs ys → Sublist (xs ++ zs) (ys ++ zs)
Sublist-append_right zs none_left = Sublist_refl zs
Sublist-append_right zs (left_out s) = left_out (Sublist-append_right zs s)
Sublist-append_right zs (kept s) = kept (Sublist-append_right zs s)

pub Sublist-filter : (p : List ℕ → Bool) (xs : List (List ℕ)) → Sublist (filter p xs) xs
Sublist-filter p [] = none_left
Sublist-filter p (x ∷ xs) = elim (Bool-cases (p x)) [
  | inl t ↦ rw t (kept (Sublist-filter p xs))
  | inr f ↦ rw f (left_out (Sublist-filter p xs))
]

pub member-Sublist :
    (a : List ℕ) {xs ys : List (List ℕ)} → Sublist xs ys → member a ys ≡ false → member a xs ≡ false
unfolding member
member-Sublist a none_left h = h
member-Sublist a {ys = y ∷ ys} (left_out s) h = member-Sublist a s (ground arith)
member-Sublist a {ys = y ∷ ys} (kept s) h = ground (arith, member-Sublist a s)

pub Distinct-Sublist : {xs ys : List (List ℕ)} → Sublist xs ys → Distinct ys → Distinct xs
Distinct-Sublist none_left d = d
Distinct-Sublist (left_out s) d = Distinct-Sublist s d.1
Distinct-Sublist {ys = y ∷ ys} (kept s) d = (member-Sublist y s d.0, Distinct-Sublist s d.1)

pub member-append :
    (a : List ℕ) (xs ys : List (List ℕ)) → member a (xs ++ ys) ≡ (member a xs || member a ys)
unfolding member
member-append a [] ys = refl
member-append a (x ∷ xs) ys = ground (arith, member-append a xs ys)

pub same_sym : (x y : List ℕ) → same x y ≡ same y x
unfolding same
same_sym [] [] = refl
same_sym [] (y ∷ ys) = refl
same_sym (x ∷ xs) [] = refl
same_sym (x ∷ xs) (y ∷ ys) = ground (arith, same_sym xs ys)

-- Put at the end of a list that lacks it, a byte string keeps the list distinct.
pub Distinct-append :
    (a : List ℕ) (xs : List (List ℕ))
    → member a xs ≡ false
    → Distinct xs
    → Distinct (xs ++ (a ∷ []))
unfolding member
Distinct-append a [] h d = (refl, tt)
Distinct-append a (x ∷ xs) h d =
    let other = same_sym a x in
    (ground (arith, member-append x xs (a ∷ [])), Distinct-append a xs (ground arith) d.1)

-- What stands somewhere in a distinct list stands nowhere before.
pub Distinct-before :
    (a : List ℕ) (xs ys : List (List ℕ)) → Distinct (xs ++ (a ∷ ys)) → member a xs ≡ false
unfolding member
Distinct-before a [] ys d = refl
Distinct-before a (x ∷ xs) ys d =
    let other = same_sym a x in
    ground (arith, d.0, member-append x xs (a ∷ ys), Distinct-before a xs ys d.1)
