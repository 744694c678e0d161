-- ===== src/Daemon/AncsGroups/Found.antt =====
-- The elements that `positions` finds, and the only one.
use analogconnect.Base.{
  ℕ, zero, suc, ◌≤◌, ◌≡◌, refl, ap, ◌∙◌, inl, inr, Bool, true, false, Bool-cases, some, List, [],
  ◌∷◌, ◌++◌, map, get_elem?, any, if◌then◌else◌, arith, filter,
}
use analogconnect.Daemon.AncsGroups.{PendingMapMessage, positions, remove_at, named, handles_at}

abbrev pub count {ℓ} : {A : Type ℓ} → (A → Bool) → List A → ℕ
count test [] = 0
count test (x ∷ xs) = if test x then suc (count test xs) else count test xs

module _ {A : Type 0} (test : A → Bool) where
  -- One element meets the test, and none of the rest does.
  pub record IsOnly (xs : List A) (x : A) (rest : List A) : Type 0 where
    pub split :
        (before : List A) × (after : List A) × (xs ≡ before ++ (x ∷ after))
        × (rest ≡ before ++ after)
    pub meets : test x ≡ true
    pub no_other : any test rest ≡ false

  abbrev pub AreFound : List A → List ℕ → Type 0
  AreFound xs [] = any test xs ≡ false
  AreFound xs (i ∷ []) = (x : A) × (get_elem? xs i ≡ some x) × IsOnly xs x (remove_at i xs)
  AreFound xs (i ∷ j ∷ is) = 2 ≤ count test xs

  counted_in :
      (before : List A) (x : A) (after : List A)
      → test x ≡ true
      → 1 ≤ count test (before ++ (x ∷ after))
  counted_in [] x after h = rw h (omega arith)
  counted_in (y ∷ before) x after h = ground (arith, counted_in before x after h)

  only_counted : (xs : List A) (is : List ℕ) (i : ℕ) → AreFound xs (i ∷ is) → 1 ≤ count test xs
  only_counted xs [] i (x, e, only) =
      let (before, after, whole, rest) = only.split in
      rw whole (counted_in before x after only.meets)
  only_counted xs (j ∷ is) i f = omega arith

  found_before :
      (x : A) (xs : List A) (is : List ℕ)
      → test x ≡ false
      → AreFound xs is
      → AreFound (x ∷ xs) (map suc is)
  found_before x xs [] h f = rw h f
  found_before x xs (i ∷ []) h (y, e, only) =
      let (before, after, whole, rest) = only.split in
      (
        y,
        e,
        record {
          split = (x ∷ before, after, ap (◌∷◌ x) whole, ap (◌∷◌ x) rest);
          meets = only.meets;
          no_other = rw h only.no_other;
        },
      )
  found_before x xs (i ∷ j ∷ is) h f = rw h f

  found_first :
      (x : A) (xs : List A) (is : List ℕ)
      → test x ≡ true
      → AreFound xs is
      → AreFound (x ∷ xs) (zero ∷ map suc is)
  found_first x xs [] h f =
      (x, refl, record { split = ([], xs, refl, refl); meets = h; no_other = f })
  found_first x xs (i ∷ is) h f = rw h (let l = only_counted xs is i f in omega arith)

  pub positions-AreFound : (xs : List A) → AreFound xs (positions test xs)
  unfolding positions
  positions-AreFound [] = refl
  positions-AreFound (x ∷ xs) = elim (Bool-cases (test x)) [
    | inl t ↦ rw t (found_first x xs (positions test xs) t (positions-AreFound xs))
    | inr f ↦ rw f (found_before x xs (positions test xs) f (positions-AreFound xs))
  ]

handles_at-later :
    (x : PendingMapMessage) (xs : List PendingMapMessage) (is : List ℕ)
    → handles_at (x ∷ xs) (map suc is) ≡ handles_at xs is
handles_at-later x xs [] = refl
handles_at-later x xs (i ∷ is) = ap (named (get_elem? xs i)) (handles_at-later x xs is)

pub handles_at-positions :
    (test : PendingMapMessage → Bool) (xs : List PendingMapMessage)
    → handles_at xs (positions test xs) ≡ map (λ m. m.map_handle) (filter test xs)
unfolding positions
handles_at-positions test [] = refl
handles_at-positions test (x ∷ xs) =
    let later = handles_at-later x xs (positions test xs) ∙ handles_at-positions test xs in
    elim (Bool-cases (test x)) [ inl t ↦ rw t (ap (◌∷◌ x.map_handle) later) | inr f ↦ rw f later ]

pub positions-pointwise {ℓ} :
    {A : Type ℓ} (f g : A → Bool) (xs : List A)
    → ((x : A) → f x ≡ g x)
    → positions f xs ≡ positions g xs
unfolding positions
positions-pointwise f g [] h = refl
positions-pointwise f g (x ∷ xs) h = rw (h x, positions-pointwise f g xs h) refl
