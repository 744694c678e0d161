-- ===== src/Base/SortedMap.antt =====
-- Rust's `BTreeMap` with number keys: the entries in ascending order of their keys.
use Prim.Native.Nat.{ℕ, suc, ◌≤◌}
use mathlib.Core.Path.{◌≡◌, refl}
use mathlib.Core.Logic.{inl, inr}
use mathlib.Core.Bool.{Bool, true, false}
use mathlib.Core.List.{List, [], ◌∷◌}
use mathlib.Core.Option.{Option, none, some}
use native.Mathlib.Omega.{arith}
use analogconnect.Base.Tests.{ltb, ◌==◌, if◌then◌else◌, Bool-cases, ==_iff}
use analogconnect.Base.Lists.{length}

module _ {ℓ} {V : Type ℓ} where
  unfoldable pub get? : ℕ → List (ℕ × V) → Option V
  get? k [] = none
  get? k ((j, w) ∷ m) = if j == k then some w else get? k m

  unfoldable pub contains_key : ℕ → List (ℕ × V) → Bool
  contains_key k [] = false
  contains_key k ((j, w) ∷ m) = if j == k then true else contains_key k m

  unfoldable pub insert : ℕ → V → List (ℕ × V) → List (ℕ × V)
  insert k v [] = (k, v) ∷ []
  insert k v ((j, w) ∷ m) =
      if ltb k j then (k, v) ∷ (j, w) ∷ m else if k == j then (k, v) ∷ m else (j, w) ∷ insert k v m

  unfoldable pub remove : ℕ → List (ℕ × V) → List (ℕ × V)
  remove k [] = []
  remove k ((j, w) ∷ m) = if j == k then m else (j, w) ∷ remove k m

  unfoldable pub first_key : List (ℕ × V) → Option ℕ
  first_key [] = none
  first_key ((j, w) ∷ m) = some j

  unfoldable pub last_key : List (ℕ × V) → Option ℕ
  last_key [] = none
  last_key ((j, w) ∷ []) = some j
  last_key ((j, w) ∷ e ∷ m) = last_key (e ∷ m)

  -- The keys ascend, from `lo` on.
  abbrev pub Ascending : ℕ → List (ℕ × V) → Type 0
  Ascending lo [] = Unit {0}
  Ascending lo ((j, w) ∷ m) = (lo ≤ j) × Ascending (suc j) m

  pub Ascending-mono : (lo hi : ℕ) (m : List (ℕ × V)) → lo ≤ hi → Ascending hi m → Ascending lo m
  Ascending-mono lo hi [] h a = tt
  Ascending-mono lo hi ((j, w) ∷ m) h a = (omega arith, a.1)

  pub insert-Ascending :
      (k : ℕ) (v : V) (lo : ℕ) (m : List (ℕ × V))
      → lo ≤ k
      → Ascending lo m
      → Ascending lo (insert k v m)
  unfolding insert
  insert-Ascending k v lo [] h a = (h, tt)
  insert-Ascending k v lo ((j, w) ∷ m) h a = ground (arith, insert-Ascending k v (suc j) m)

  pub remove-Ascending : (k lo : ℕ) (m : List (ℕ × V)) → Ascending lo m → Ascending lo (remove k m)
  unfolding remove
  remove-Ascending k lo [] a = tt
  remove-Ascending k lo ((j, w) ∷ m) a =
      ground (arith, remove-Ascending k (suc j) m, Ascending-mono lo (suc j) m)

  -- Without its least possible key, a map starts one later.
  pub remove_least : (lo : ℕ) (m : List (ℕ × V)) → Ascending lo m → Ascending (suc lo) (remove lo m)
  unfolding remove
  remove_least lo [] a = tt
  remove_least lo ((j, w) ∷ m) a = ground (arith, remove-Ascending lo (suc j) m)

  -- Nor does one that lacks it.
  pub missing_least :
      (lo : ℕ) (m : List (ℕ × V)) → get? lo m ≡ none → Ascending lo m → Ascending (suc lo) m
  unfolding get?
  missing_least lo [] e a = tt
  missing_least lo ((j, w) ∷ m) e a = ground arith

  pub first_key-Ascending :
      (lo k : ℕ) (m : List (ℕ × V)) → first_key m ≡ some k → Ascending lo m → Ascending k m
  unfolding first_key
  first_key-Ascending lo k [] e a = tt
  first_key-Ascending lo k ((j, w) ∷ m) e a = ground arith

  pub length-insert :
      (k : ℕ) (v : V) (m : List (ℕ × V))
      → contains_key k m ≡ false
      → length (insert k v m) ≡ suc (length m)
  unfolding insert contains_key
  length-insert k v [] h = refl
  length-insert k v ((j, w) ∷ m) h = ground (arith, length-insert k v m)

  pub length-remove :
      (k : ℕ) (m : List (ℕ × V)) → contains_key k m ≡ true → suc (length (remove k m)) ≡ length m
  unfolding remove contains_key
  length-remove k [] h = absurd (ground arith)
  length-remove k ((j, w) ∷ m) h = ground (arith, length-remove k m)

  pub contains_key-remove :
      (k j : ℕ) (m : List (ℕ × V)) → contains_key k m ≡ false → contains_key k (remove j m) ≡ false
  unfolding remove contains_key
  contains_key-remove k j [] h = refl
  contains_key-remove k j ((i, w) ∷ m) h = ground (arith, contains_key-remove k j m)

  pub contains_key-last : (k : ℕ) (m : List (ℕ × V)) → last_key m ≡ some k → contains_key k m ≡ true
  unfolding last_key contains_key
  contains_key-last k [] h = absurd (ground arith)
  contains_key-last k ((j, w) ∷ []) h = ground arith
  contains_key-last k ((j, w) ∷ e ∷ m) h = ground (arith, contains_key-last k (e ∷ m))

  pub contains_key-get? :
      (k : ℕ) (v : V) (m : List (ℕ × V)) → get? k m ≡ some v → contains_key k m ≡ true
  unfolding get? contains_key
  contains_key-get? k v [] h = absurd (ground arith)
  contains_key-get? k v ((j, w) ∷ m) h = ground (arith, contains_key-get? k v m)

-- Every entry of a map meets a predicate on its key and value.
module _ {ℓ} {V : Type ℓ} (P : ℕ → V → Type 0) where
  abbrev pub Each : List (ℕ × V) → Type 0
  Each [] = Unit {0}
  Each ((j, w) ∷ m) = P j w × Each m

  pub Each-insert : (k : ℕ) (v : V) (m : List (ℕ × V)) → P k v → Each m → Each (insert k v m)
  unfolding insert
  Each-insert k v [] p h = (p, tt)
  Each-insert k v ((j, w) ∷ m) p h = ground (arith, Each-insert k v m)

  pub Each-remove : (k : ℕ) (m : List (ℕ × V)) → Each m → Each (remove k m)
  unfolding remove
  Each-remove k [] h = tt
  Each-remove k ((j, w) ∷ m) h = ground (arith, Each-remove k m)

  pub Each-get? : (k : ℕ) (v : V) (m : List (ℕ × V)) → get? k m ≡ some v → Each m → P k v
  unfolding get?
  Each-get? k v [] e h = absurd (ground arith)
  Each-get? k v ((j, w) ∷ m) e h = elim (Bool-cases (j == k)) [
    | inl t ↦
        let key : j ≡ k = (==_iff j k).0 t in
        let value : w ≡ v = ground arith in rw (← key, ← value) (h.0)
    | inr f ↦ Each-get? k v m (ground arith) h.1
  ]
