-- ===== src/Daemon/Server/Pages/Fetched.antt =====
-- The messages that `conversation_messages` shows, of an `InMemoryConversationRepository`.
use analogconnect.Base.{
  ℕ, zero, suc, ◌+◌, ◌-◌, ◌≤◌, min, ◌≡◌, refl, sym, ap, ◌∙◌, inl, inr, Bool-cases, List, [], ◌∷◌,
  ok, err, length, take, drop, ltb, leb, if◌then◌else◌, le→leb, arith, length-drop,
}
use analogconnect.Base.Text.{Text}
use analogconnect.Base.Words.{saturating_add}
use analogconnect.Daemon.Conversations.Cursor.{PageCursor}
use analogconnect.Daemon.Conversations.Repository.{
  InMemoryConversationRepository, messages_for, ordered_messages, range,
}
use analogconnect.Daemon.Server.Guards.{unprocessable_entity}
use analogconnect.Daemon.Server.Pages.{fetched_page, u16_max}
use analogconnect.Daemon.Server.Pages.Walk.{page_of, take-min, length-take-min}

module _ {A : Type 0} where
  take-take : (n : ℕ) (xs : List A) → take n (take (suc n) xs) ≡ take n xs
  take-take zero xs = refl
  take-take (suc n) [] = refl
  take-take (suc n) (x ∷ xs) = ap (◌∷◌ x) (take-take n xs)

  drop-past : (n : ℕ) (xs : List A) → length xs ≤ n → drop n xs ≡ []
  drop-past zero [] h = refl
  drop-past zero (x ∷ xs) h = absurd (omega arith)
  drop-past (suc n) [] h = refl
  drop-past (suc n) (x ∷ xs) h = drop-past n xs (omega arith)

  drop-min : (n : ℕ) (xs : List A) → drop (min n (length xs)) xs ≡ drop n xs
  drop-min n xs = elim (Bool-cases (leb n (length xs))) [
    | inl inside ↦ ap (λ k. drop k xs) (let e : min n (length xs) ≡ n = ground arith in e)
    | inr outside ↦
        drop-past (min n (length xs)) xs (ground arith) ∙ sym (drop-past n xs (ground arith))
  ]

  -- A range with bounds cut to the rows.
  range-cut :
      (rows : List A) (offset count : ℕ)
      → range rows (min offset (length rows)) (min (min offset (length rows) + count) (length rows))
        ≡ take count (drop offset rows)
  range-cut rows offset count =
      let start = min offset (length rows) in
      let size : min (start + count) (length rows) - start ≡ min count (length (drop start rows)) =
        omega (arith, length-drop start rows) in
      ap (λ n. take n (drop start rows)) size
      ∙ take-min count (drop start rows)
      ∙ ap (take count) (drop-min offset rows)

-- For a limit that the handler accepts, fetching one row more than the limit gives the page of all
-- messages of the conversation, the newest first, as its contract has it, if the offset fits in 16
-- bits; any other cursor is refused, though `parse` accepts it.
pub fetched_page-page_of :
    (repository : InMemoryConversationRepository) (key : Text) (cursor : PageCursor) (limit : ℕ)
    → limit ≤ 100
    → fetched_page (messages_for repository) key cursor limit ≡ (
        if leb cursor.offset u16_max
        then ok (page_of (ordered_messages repository key) cursor limit)
        else err unprocessable_entity)
unfolding fetched_page messages_for
fetched_page-page_of repository key cursor limit most =
    let rows = ordered_messages repository key in
    let one : saturating_add limit 1 ≡ suc limit = omega arith in
    let fetched = range-cut rows cursor.offset (suc limit) in
    let more : ltb limit (length (take (suc limit) (drop cursor.offset rows)))
        ≡ ltb (cursor.offset + limit) (length rows) =
      ground (
        arith,
        length-take-min (suc limit) (drop cursor.offset rows),
        length-drop cursor.offset rows,
      ) in
    elim (Bool-cases (leb cursor.offset u16_max)) [
      | inl fits ↦
          rw
            (
              fits,
              one,
              le→leb (suc limit) u16_max (omega arith),
              fetched,
              more,
              take-take limit (drop cursor.offset rows),
            )
            refl
      | inr large ↦ rw large refl
    ]
