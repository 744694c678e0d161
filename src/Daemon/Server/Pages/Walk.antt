-- ===== src/Daemon/Server/Pages/Walk.antt =====
-- The pages of a list, one after the other: how a client walks them by their cursors.
use analogconnect.Base.{
  ℕ, zero, suc, ◌+◌, ◌-◌, ◌<◌, ◌≤◌, min, ◌≡◌, refl, sym, ap, ap₂, ◌∙◌, inl, inr, false, Bool-cases,
  Option, none, some, List, [], ◌∷◌, ◌++◌, Result, ok, err, length, take, drop, ltb, leb, arith,
  length-take, length-drop, drop-drop, take-append-drop,
}
use analogconnect.Base.Text.{Text}
use analogconnect.Daemon.Conversations.{ConversationError, StoredConversation}
use analogconnect.Daemon.Conversations.Cursor.{
  PageCursor, parse, encode_cursor, advance, parse-encode_cursor, max_cursor_offset,
}
use analogconnect.Daemon.Server.Pages.{Page, next_cursor, first_row, end_row, shown_rows}

-- A page as its contract has it: the rows from the offset on, as many as the limit, and the cursor of
-- the page after it, if there are more rows.
abbrev pub page_of : {A : Type 0} → List A → PageCursor → ℕ → Page A
page_of rows cursor limit =
    let items = take limit (drop cursor.offset rows) in
    record {
      items = items;
      next_cursor = next_cursor (ltb (cursor.offset + limit) (length rows)) cursor (length items);
    }

abbrev joined : {A : Type 0} → List A → Option (List A) → Option (List A)
joined items none = none
joined items (some rest) = some (items ++ rest)

abbrev continued : {A : Type 0} → List A → Option Text → (Text → Option (List A)) → Option (List A)
continued items none later = some items
continued items (some next) later = joined items (later next)

abbrev visited :
    {A : Type 0}
    → Result PageCursor ConversationError
    → (PageCursor → Option (List A))
    → Option (List A)
visited (err e) visit = none
visited (ok cursor) visit = visit cursor

-- The rows of a page and of those after it, by the cursors that the pages give, in as many pages as
-- there is fuel for; none if a cursor is refused.
unfoldable pub walk : {A : Type 0} → (PageCursor → Page A) → ℕ → Option Text → Option (List A)
walk page zero text = none
walk page (suc fuel) text = visited (parse text) (λ cursor.
    continued (page cursor).items (page cursor).next_cursor (λ next. walk page fuel (some next)))

-- The cursor after a full page.
advance-offset :
    (cursor : PageCursor) (limit size : ℕ)
    → limit ≤ 100
    → size ≤ max_cursor_offset
    → cursor.offset + limit < size
    → (advance cursor limit).offset ≡ cursor.offset + limit
advance-offset cursor limit size most few more = omega arith

module _ {A : Type 0} where
  take-all : (n : ℕ) (xs : List A) → length xs ≤ n → take n xs ≡ xs
  take-all zero [] h = refl
  take-all zero (x ∷ xs) h = absurd (omega arith)
  take-all (suc n) [] h = refl
  take-all (suc n) (x ∷ xs) h = ap (◌∷◌ x) (take-all n xs (omega arith))

  walk-last :
      (page : PageCursor → Page A) (fuel : ℕ) (text : Option Text) (cursor : PageCursor)
      → parse text ≡ ok cursor
      → (page cursor).next_cursor ≡ none
      → walk page (suc fuel) text ≡ some (page cursor).items
  unfolding walk
  walk-last page fuel text cursor e h =
      let later = λ (next : Text). walk page fuel (some next) in
      ap (λ c. visited c (λ c'. continued (page c').items (page c').next_cursor later)) e
      ∙ ap (λ n. continued (page cursor).items n later) h

  walk-next :
      (page : PageCursor → Page A) (fuel : ℕ) (text : Option Text) (cursor : PageCursor)
      (next : Text) (rest : List A)
      → parse text ≡ ok cursor
      → (page cursor).next_cursor ≡ some next
      → walk page fuel (some next) ≡ some rest
      → walk page (suc fuel) text ≡ some ((page cursor).items ++ rest)
  unfolding walk
  walk-next page fuel text cursor next rest e h r =
      let later = λ (n : Text). walk page fuel (some n) in
      ap (λ c. visited c (λ c'. continued (page c').items (page c').next_cursor later)) e
      ∙ ap (λ n. continued (page cursor).items n later) h
      ∙ ap (joined (page cursor).items) r

  -- A page of the rows, wherever a walk may come.
  abbrev pub IsPaged : (PageCursor → Page A) → List A → ℕ → Type 0
  IsPaged page rows limit =
      (cursor : PageCursor) → cursor.offset ≤ length rows → page cursor ≡ page_of rows cursor limit

  walk_end :
      (page : PageCursor → Page A) (rows : List A) (limit fuel : ℕ) (text : Option Text)
      (cursor : PageCursor)
      → IsPaged page rows limit
      → parse text ≡ ok cursor
      → cursor.offset ≤ length rows
      → ltb (cursor.offset + limit) (length rows) ≡ false
      → walk page (suc fuel) text ≡ some (drop cursor.offset rows)
  walk_end page rows limit fuel text cursor paged e in_rows last =
      let left = drop cursor.offset rows in
      let p = paged cursor in_rows in
      walk-last page fuel text cursor e
        (ap (λ p. p.next_cursor) p ∙ ap (λ b. next_cursor b cursor (length (take limit left))) last)
      ∙ ap some (
          ap (λ p. p.items) p
          ∙ take-all limit left (ground (arith, length-drop cursor.offset rows)))

  walk_from :
      (page : PageCursor → Page A) (rows : List A) (limit fuel : ℕ) (text : Option Text)
      (cursor : PageCursor)
      → IsPaged page rows limit
      → 1 ≤ limit
      → limit ≤ 100
      → length rows ≤ max_cursor_offset
      → parse text ≡ ok cursor
      → cursor.offset ≤ length rows
      → length rows ≤ cursor.offset + fuel
      → walk page (suc fuel) text ≡ some (drop cursor.offset rows)
  walk_from page rows limit zero text cursor paged least most few e in_rows enough =
      walk_end page rows limit zero text cursor paged e in_rows (ground arith)
  walk_from page rows limit (suc fuel) text cursor paged least most few e in_rows enough =
      elim (Bool-cases (ltb (cursor.offset + limit) (length rows)))
        as (λ _. walk page (suc (suc fuel)) text ≡ some (drop cursor.offset rows)) [
          | inr last ↦ walk_end page rows limit (suc fuel) text cursor paged e in_rows last
          | inl more ↦
              let left = drop cursor.offset rows in
              let p = paged cursor in_rows in
              let after = advance cursor limit in
              let bound : cursor.offset + limit < length rows = ground arith in
              let moved : after.offset ≡ cursor.offset + limit =
                advance-offset cursor limit (length rows) most few bound in
              let full : length (take limit left) ≡ limit =
                length-take limit left (omega (arith, length-drop cursor.offset rows)) in
              let rest =
                walk_from page rows limit fuel (some (encode_cursor after)) after paged least most
                  few (parse-encode_cursor after (omega arith)) (omega arith) (omega arith) in
              walk-next page (suc fuel) text cursor (encode_cursor after) (drop after.offset rows) e
                (ap (λ p. p.next_cursor) p ∙ ap₂ (λ b n. next_cursor b cursor n) more full) rest
              ∙ ap some (
                  ap₂ (◌++◌) (ap (λ p. p.items) p)
                    (ap (λ n. drop n rows) moved ∙ sym (drop-drop limit cursor.offset rows))
                  ∙ take-append-drop limit left)
        ]

  pub length-take-min : (n : ℕ) (xs : List A) → length (take n xs) ≡ min n (length xs)
  length-take-min zero xs = omega arith
  length-take-min (suc n) [] = omega arith
  length-take-min (suc n) (x ∷ xs) = omega (arith, length-take-min n xs)

  pub take-min : (n : ℕ) (xs : List A) → take (min n (length xs)) xs ≡ take n xs
  take-min n xs = elim (Bool-cases (leb n (length xs))) [
    | inl fits ↦ ap (λ k. take k xs) (let e : min n (length xs) ≡ n = ground arith in e)
    | inr long ↦
        let e : min n (length xs) ≡ length xs = ground arith in
        ap (λ k. take k xs) e
        ∙ take-all (length xs) xs (omega arith)
        ∙ sym (take-all n xs (ground arith))
  ]

-- The rows that `conversation_page` shows, and the cursor that it gives.
abbrev pub shown_page : List StoredConversation → ℕ → PageCursor → Page StoredConversation
shown_page rows limit cursor = record {
  items = shown_rows rows cursor limit;
  next_cursor =
      next_cursor (ltb (end_row rows cursor limit) (length rows)) cursor
        (length (shown_rows rows cursor limit));
}

shown_page-IsPaged :
    (rows : List StoredConversation) (limit : ℕ)
    → limit ≤ 100
    → length rows ≤ max_cursor_offset
    → IsPaged (shown_page rows limit) rows limit
shown_page-IsPaged rows limit most few cursor in_rows =
    let left = drop cursor.offset rows in
    let first : first_row rows cursor ≡ cursor.offset = omega arith in
    let size : end_row rows cursor limit - first_row rows cursor ≡ min limit (length left) =
      omega (arith, length-drop cursor.offset rows) in
    let more : ltb (end_row rows cursor limit) (length rows)
        ≡ ltb (cursor.offset + limit) (length rows) =
      ground arith in
    let items : shown_rows rows cursor limit ≡ take limit left =
      ap₂ (λ n k. take n (drop k rows)) size first ∙ take-min limit left in
    ap₂ (λ xs b. record { items = xs; next_cursor = next_cursor b cursor (length xs) }) items more

-- A client that asks for the first page of at most a million conversations, with a limit that the
-- handler accepts, and then for each next page by the cursor of the page before, gets every
-- conversation once and in order; no cursor is refused, and there are at most as many pages as
-- conversations and one more.
pub walk-shown_page :
    (rows : List StoredConversation) (limit : ℕ)
    → 1 ≤ limit
    → limit ≤ 100
    → length rows ≤ max_cursor_offset
    → walk (shown_page rows limit) (suc (length rows)) none ≡ some rows
walk-shown_page rows limit least most few =
    walk_from (shown_page rows limit) rows limit (length rows) none (record { offset = 0 })
      (shown_page-IsPaged rows limit most few) least most few refl (omega arith) (omega arith)
