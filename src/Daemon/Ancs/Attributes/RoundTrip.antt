-- ===== src/Daemon/Ancs/Attributes/RoundTrip.antt =====
-- `parse_attributes` on a response as the phone writes it, and on the start of one.
use analogconnect.Base.{
  ℕ, zero, suc, ◌+◌, ◌-◌, ◌*◌, ◌/◌, ◌%◌, ◌<◌, ◌≤◌, ◌≡◌, refl, sym, ap, ap₂, ◌∙◌, inl, inr, none,
  some, true, false, List, [], ◌∷◌, ◌++◌, length, take, drop, get_elem?, ltb, ◌==◌, if◌then◌else◌,
  ==_refl, le→leb, length-append, append_assoc, append-nil, subst, length-drop, Option-cases, arith,
  take-length-append, take-append-le, drop-append-le,
}
use analogconnect.Base.Options.{◌>>=◌, bound, passed, some_injective}
use analogconnect.Daemon.Ancs.Attributes.{
  attribute_ids, get_range, read_attributes, parse_attributes,
}

-- An attribute as the phone writes it: its ID, the length of its value, its value.
abbrev pub attribute : ℕ → List ℕ → List ℕ
attribute id value = id ∷ length value % 256 ∷ length value / 256 ∷ value

abbrev pub attributes : List ℕ → List (List ℕ) → List ℕ
attributes [] values = []
attributes (id ∷ ids) [] = []
attributes (id ∷ ids) (value ∷ values) = attribute id value ++ attributes ids values

-- Values with lengths of two bytes.
abbrev pub AreValues : List (List ℕ) → Type 0
AreValues [] = Unit {0}
AreValues (value ∷ values) = (length value < 65536) × AreValues values

get_elem?-append : (xs ys : List ℕ) (k : ℕ) → get_elem? (xs ++ ys) (length xs + k) ≡ get_elem? ys k
get_elem?-append [] ys k = ap (get_elem? ys) (omega arith)
get_elem?-append (x ∷ xs) ys k =
    ap (get_elem? (x ∷ (xs ++ ys)))
      (let e : suc (length xs) + k ≡ suc (length xs + k) = omega arith in e)
    ∙ get_elem?-append xs ys k

drop-append-plus : (xs ys : List ℕ) (k : ℕ) → drop (length xs + k) (xs ++ ys) ≡ drop k ys
drop-append-plus [] ys k = ap (λ n. drop n ys) (omega arith)
drop-append-plus (x ∷ xs) ys k =
    ap (λ n. drop n (x ∷ (xs ++ ys)))
      (let e : suc (length xs) + k ≡ suc (length xs + k) = omega arith in e)
    ∙ drop-append-plus xs ys k

get_range-append :
    (xs ys value rest : List ℕ) (k : ℕ)
    → drop k ys ≡ value ++ rest
    → length ys ≡ k + length value + length rest
    → get_range (xs ++ ys) (length xs + k) (length xs + k + length value) ≡ some value
get_range-append xs ys value rest k h e =
    let fits : length xs + k + length value ≤ length (xs ++ ys) =
      omega (arith, length-append xs ys) in
    let size : length xs + k + length value - (length xs + k) ≡ length value = omega arith in
    rw (le→leb _ _ fits, size, drop-append-plus xs ys k, h)
      (ap some (take-length-append value rest))

read_attributes-attribute :
    (id : ℕ) (ids value before rest : List ℕ)
    → length value < 65536
    → read_attributes (id ∷ ids) (before ++ (attribute id value ++ rest)) (length before) ≡ (
        read_attributes ids
          (before ++ (attribute id value ++ rest))
          (length before + length (attribute id value))
        >>= λ more. some (value ∷ more.0, more.1))
unfolding read_attributes
read_attributes-attribute id ids value before rest h =
    let n = length before in
    let tail = attribute id value ++ rest in
    let whole = before ++ tail in
    let size : length value % 256 + 256 * (length value / 256) ≡ length value = omega arith in
    let start : n ≡ n + 0 = omega arith in
    let here : get_elem? whole n ≡ some id =
      ap (get_elem? whole) start ∙ get_elem?-append before tail 0 in
    let taken : get_range whole (n + 3) (n + 3 + length value) ≡ some value =
      get_range-append before tail value rest 3 refl (omega (arith, length-append value rest)) in
    let next : n + 3 + length value ≡ n + length (attribute id value) = omega arith in
    rw
      (
        here,
        ==_refl id,
        get_elem?-append before tail 1,
        get_elem?-append before tail 2,
        size,
        taken,
      )
      (ap (λ end. read_attributes ids whole end >>= λ more. some (value ∷ more.0, more.1)) next)

pub read_attributes-attributes :
    (ids : List ℕ) (values : List (List ℕ)) (before rest : List ℕ)
    → length ids ≡ length values
    → AreValues values
    → read_attributes ids (before ++ (attributes ids values ++ rest)) (length before)
      ≡ some (values, length before + length (attributes ids values))
unfolding read_attributes
read_attributes-attributes [] [] before rest e v = ap (λ n. some ([], n)) (omega arith)
read_attributes-attributes [] (value ∷ values) before rest e v = absurd (omega arith)
read_attributes-attributes (id ∷ ids) [] before rest e v = absurd (omega arith)
read_attributes-attributes (id ∷ ids) (value ∷ values) before rest e v =
    let first = attribute id value in
    let later = attributes ids values ++ rest in
    let ih = read_attributes-attributes ids values (before ++ first) rest (omega arith) v.1 in
    ap (λ w. read_attributes (id ∷ ids) (before ++ w) (length before))
      (append_assoc first (attributes ids values) rest)
    ∙ read_attributes-attribute id ids value before later v.0
    ∙ ap (λ r. r >>= λ more. some (value ∷ more.0, more.1))
        (ap₂ (read_attributes ids) (sym (append_assoc before first later))
            (sym (length-append before first))
          ∙ ih)
    ∙ ap (λ n. some (value ∷ values, n))
        (let e : length (before ++ first) + length (attributes ids values)
              ≡ length before + length (first ++ attributes ids values) =
            omega
              (arith, length-append before first, length-append first (attributes ids values)) in
          e)

get_elem?-longer :
    (xs ys : List ℕ) (i : ℕ) {x : ℕ} → get_elem? xs i ≡ some x → get_elem? (xs ++ ys) i ≡ some x
get_elem?-longer [] ys i h = absurd (cc h)
get_elem?-longer (x ∷ xs) ys zero h = h
get_elem?-longer (x ∷ xs) ys (suc i) h = get_elem?-longer xs ys i h

get_range-fits :
    (xs : List ℕ) (start end : ℕ) {value : List ℕ}
    → get_range xs start end ≡ some value
    → end ≤ length xs
get_range-fits xs start end h = ground arith

get_range-longer :
    (xs ys : List ℕ) (start end : ℕ) (value : List ℕ)
    → start ≤ end
    → get_range xs start end ≡ some value
    → get_range (xs ++ ys) start end ≡ some value
get_range-longer xs ys start end value le h =
    let fits = get_range-fits xs start end h in
    let fits' : end ≤ length (xs ++ ys) = omega (arith, length-append xs ys) in
    let same : take (end - start) (drop start (xs ++ ys)) ≡ take (end - start) (drop start xs) =
      ap (take (end - start)) (drop-append-le start xs ys (omega arith))
      ∙ take-append-le (end - start) (drop start xs) ys (omega (arith, length-drop start xs)) in
    rw (le→leb _ _ fits', same)
      (subst (λ t. (if t then some (take (end - start) (drop start xs)) else none) ≡ some value)
        (le→leb _ _ fits) h)

pub read_attributes-longer :
    (ids bytes more : List ℕ) (offset : ℕ) (result : List (List ℕ) × ℕ)
    → offset ≤ length bytes
    → read_attributes ids bytes offset ≡ some result
    → (read_attributes ids (bytes ++ more) offset ≡ some result) × (result.1 ≤ length bytes)
unfolding read_attributes
read_attributes-longer [] bytes more offset result le h =
    (h, let e : ([], offset) ≡ result = some_injective h in subst (λ r. r.1 ≤ length bytes) e le)
read_attributes-longer (id ∷ ids) bytes more offset result le h =
    let (found, e₀, h₁) = bound (get_elem? bytes offset) _ h in
    let (ok, h₂) = passed (found == id) _ h₁ in
    let (low, e₁, h₃) = bound (get_elem? bytes (offset + 1)) _ h₂ in
    let (high, e₂, h₄) = bound (get_elem? bytes (offset + 2)) _ h₃ in
    let end = offset + 3 + (low + 256 * high) in
    let (value, e₃, h₅) = bound (get_range bytes (offset + 3) end) _ h₄ in
    let (rest, e₄, h₆) = bound (read_attributes ids bytes end) _ h₅ in
    let (ih, few) =
      read_attributes-longer ids bytes more end rest (get_range-fits bytes (offset + 3) end e₃)
        e₄ in
    (
      rw
          (
            get_elem?-longer bytes more offset e₀,
            ok,
            get_elem?-longer bytes more (offset + 1) e₁,
            get_elem?-longer bytes more (offset + 2) e₂,
            get_range-longer bytes more (offset + 3) end value (omega arith) e₃,
            ih,
          )
          h₆,
      subst (λ r. r.1 ≤ length bytes) (some_injective h₆) few,
    )

-- A response: the command, the UID of four bytes, the attributes.
abbrev pub response_of : List ℕ → List (List ℕ) → List ℕ
response_of uid values = 0 ∷ (uid ++ attributes attribute_ids values)

parse_attributes-read :
    (b : ℕ) (bs : List ℕ)
    → (b == 0) ≡ true
    → 4 ≤ length bs
    → parse_attributes (b ∷ bs) ≡ read_attributes attribute_ids (b ∷ bs) 5
unfolding parse_attributes
parse_attributes-read b bs h long =
    let enough : ltb (length (b ∷ bs)) 5 ≡ false = ground arith in rw (enough, h) refl

-- A response is read as its values, whatever comes after it.
pub parse_attributes-response :
    (uid : List ℕ) (values : List (List ℕ)) (rest : List ℕ)
    → length uid ≡ 4
    → length values ≡ 7
    → AreValues values
    → parse_attributes (response_of uid values ++ rest)
      ≡ some (values, length (response_of uid values))
parse_attributes-response uid values rest four seven v =
    let a = attributes attribute_ids values in
    let head = 0 ∷ uid in
    let long : 4 ≤ length ((uid ++ a) ++ rest) =
      omega (arith, length-append (uid ++ a) rest, length-append uid a) in
    parse_attributes-read 0 ((uid ++ a) ++ rest) refl long
    ∙ ap₂ (read_attributes attribute_ids) (ap (◌∷◌ 0) (append_assoc uid a rest)) (omega arith)
    ∙ read_attributes-attributes attribute_ids values head rest (sym seven) v
    ∙ ap (λ n. some (values, n)) (omega (arith, length-append uid a))

parse_attributes_accepts :
    (b : ℕ) (bs : List ℕ) (result : List (List ℕ) × ℕ)
    → parse_attributes (b ∷ bs) ≡ some result
    → ((b == 0) ≡ true) × (4 ≤ length bs)
unfolding parse_attributes
parse_attributes_accepts b bs result h = ground arith

parse_attributes-nil : parse_attributes [] ≡ none
unfolding parse_attributes
parse_attributes-nil = refl

pub parse_attributes-longer :
    (bytes more : List ℕ) (result : List (List ℕ) × ℕ)
    → parse_attributes bytes ≡ some result
    → (parse_attributes (bytes ++ more) ≡ some result) × (result.1 ≤ length bytes)
parse_attributes-longer [] more result h = absurd (cc (parse_attributes-nil, h))
parse_attributes-longer (b ∷ bs) more result h =
    let (zeroed, long) = parse_attributes_accepts b bs result h in
    let (kept, few) =
      read_attributes-longer attribute_ids (b ∷ bs) more 5 result (omega arith)
        (sym (parse_attributes-read b bs zeroed long) ∙ h) in
    (parse_attributes-read b (bs ++ more) zeroed (omega (arith, length-append bs more)) ∙ kept, few)

-- Any part of a response that lacks its end is not read as one.
pub parse_attributes-part :
    (uid part rest : List ℕ) (values : List (List ℕ))
    → length uid ≡ 4
    → length values ≡ 7
    → AreValues values
    → part ++ rest ≡ response_of uid values
    → length part < length (response_of uid values)
    → parse_attributes part ≡ none
parse_attributes-part uid part rest values four seven v e short =
    elim (Option-cases (parse_attributes part)) [
      | inl none' ↦ none'
      | inr (result, h) ↦
          let (kept, few) = parse_attributes-longer part rest result h in
          let whole = parse_attributes-response uid values [] four seven v in
          let same : some (values, length (response_of uid values)) ≡ some result =
            sym (
              subst (λ w. parse_attributes w ≡ some (values, length (response_of uid values)))
                (append-nil (response_of uid values) ∙ sym e) whole)
            ∙ kept in
          let equal : length (response_of uid values) ≡ result.1 =
            ap (λ r. r.1) (some_injective same) in
          absurd (omega arith)
    ]
