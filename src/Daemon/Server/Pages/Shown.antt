-- ===== src/Daemon/Server/Pages/Shown.antt =====
-- The items of a page that `conversation_page` answers, and the conversations that they stand for.
use analogconnect.Base.{
  ℕ, suc, ◌≡◌, refl, sym, ap, ap₂, ◌∙◌, inl, inr, Bool-cases, Option, some, List, [], ◌∷◌, Result,
  ok, err, length, map, ltb, bound, ok_injective, unit_ok, arith, subst, length-map,
}
use analogconnect.Base.Text.{Text}
use analogconnect.Daemon.Auth.{AuthTokens}
use analogconnect.Daemon.Conversations.{ConversationError, StoredConversation}
use analogconnect.Daemon.Conversations.Aliases.{ConversationAliases, default_aliases, key_for}
use analogconnect.Daemon.Conversations.Aliases.Resolved
use analogconnect.Daemon.Conversations.Aliases.Resolved.{
  AliasOp, exposes, asks, IsInverse, Extends, IsStep, step-IsStep, run-IsInverse, nothing_bound,
}
use analogconnect.Daemon.Conversations.Cursor.{PageCursor, parse}
use analogconnect.Daemon.Server.Guards.{
  StatusCode, authorize, page_limit, map_err, conversation_status,
}
use analogconnect.Daemon.Server.Pages.{
  ConversationItem, item_of, NameLookup, name_for, display_names, id_of, with_item, item_loop, Page,
  next_cursor, shown_rows, end_row, prepared, answered, conversation_page,
}
use analogconnect.Daemon.Server.Pages.Walk.{shown_page}

-- Items that resolve to the conversations of rows, by aliases that extend others.
record AreItems (before after : ConversationAliases) (rows : List StoredConversation)
    (items : List ConversationItem) : Type 0 where
  inverse : IsInverse after
  extends : Extends before after
  resolved :
      map (λ item. key_for after item.conversation_id) items
      ≡ map (λ row. some row.conversation_key) rows

id_of-IsStep :
    (a : ConversationAliases) (row : StoredConversation) (random : ℕ → Option (List ℕ))
    → IsInverse a
    → IsStep a row.conversation_key (id_of a row random)
id_of-IsStep a row random v = elim (Bool-cases row.is_ancs_group) [
  | inl stable ↦ rw stable (step-IsStep a (exposes row.conversation_key) v)
  | inr other ↦ rw other (step-IsStep a (asks row.conversation_key random) v)
]

with_item-AreItems :
    (a : ConversationAliases) (row : StoredConversation) (name : Option Text)
    (r : ConversationAliases × Result Text ConversationError)
    (later : ConversationAliases → ConversationAliases × Result (List ConversationItem) StatusCode)
    (rows : List StoredConversation) (items : List ConversationItem)
    → IsStep a row.conversation_key r
    → ((is : List ConversationItem) → (later r.0).1 ≡ ok is → AreItems r.0 (later r.0).0 rows is)
    → (with_item row name r later).1 ≡ ok items
    → AreItems a (with_item row name r later).0 (row ∷ rows) items
unfolding key_for item_of
with_item-AreItems a row name (b, err e) later rows items s f h = absurd (cc h)
with_item-AreItems a row name (b, ok id) later rows items s f h =
    let (is, made, e) = bound (later b).1 _ h in
    let t = f is made in
    let all : AreItems a (later b).0 (row ∷ rows) (item_of row name id ∷ is) = record {
      inverse = t.inverse;
      extends = λ k i g. t.extends k i (s.extends k i g);
      resolved = ap₂ ◌∷◌ (t.extends row.conversation_key id (s.resolves id refl)) t.resolved;
    } in
    subst (AreItems a (later b).0 (row ∷ rows)) (ok_injective e) all

item_loop-AreItems :
    (a : ConversationAliases) (rows : List StoredConversation) (names : List (Option Text))
    (random : ℕ → ℕ → Option (List ℕ)) (items : List ConversationItem)
    → length names ≡ length rows
    → IsInverse a
    → (item_loop a rows names random).1 ≡ ok items
    → AreItems a (item_loop a rows names random).0 rows items
unfolding item_loop
item_loop-AreItems a [] names random items l v h =
    subst (AreItems a a []) (ok_injective h)
      (record { inverse = v; extends = λ k i g. g; resolved = refl })
item_loop-AreItems a (row ∷ rows) [] random items l v h = absurd (omega arith)
item_loop-AreItems a (row ∷ rows) (name ∷ names) random items l v h =
    let s = id_of-IsStep a row (random 0) v in
    with_item-AreItems a row name (id_of a row (random 0))
      (λ a'. item_loop a' rows names (λ n. random (suc n))) rows items s
      (λ is g.
        item_loop-AreItems (id_of a row (random 0)).0 rows names (λ n. random (suc n)) is
          (omega arith) s.inverse g)
      h

length-display_names :
    (lookup : NameLookup) (rows : List StoredConversation) (names : List (Option Text))
    → display_names lookup rows ≡ ok names
    → length names ≡ length rows
unfolding display_names
length-display_names lookup [] names h = ap length (sym (ok_injective h))
length-display_names lookup (row ∷ rows) names h =
    let (name, e₀, h₁) = bound (name_for lookup row) _ h in
    let (more, e₁, h₂) = bound (display_names lookup rows) _ h₁ in
    ap length (sym (ok_injective h₂)) ∙ ap suc (length-display_names lookup rows more e₁)

-- The page of an answered request.
pub record IsShown (tokens : AuthTokens) (authorization cursor_text : Option Text)
    (requested : Option ℕ) (repository : Result (List StoredConversation) ConversationError)
    (aliases : ConversationAliases) (page : Page ConversationItem) (cursor : PageCursor) (limit : ℕ)
    (rows : List StoredConversation) : Type 0 where
  pub authorized : authorize tokens authorization ≡ ok tt
  pub parsed : parse cursor_text ≡ ok cursor
  pub limited : page_limit requested ≡ ok limit
  pub stored : repository ≡ ok rows
  pub resolved :
      map (λ item. key_for aliases item.conversation_id) page.items
      ≡ map (λ row. some row.conversation_key) (shown_page rows limit cursor).items
  pub next : page.next_cursor ≡ (shown_page rows limit cursor).next_cursor

map_err-ok : {A D E : Type 0} (f : D → E) (r : Result A D) {a : A} → map_err f r ≡ ok a → r ≡ ok a
map_err-ok f (ok b) h = ap ok (ok_injective h)
map_err-ok f (err d) h = absurd (cc h)

answered-IsShown :
    (a : ConversationAliases) (tokens : AuthTokens) (authorization cursor_text : Option Text)
    (requested : Option ℕ) (repository : Result (List StoredConversation) ConversationError)
    (lookup : NameLookup) (random : ℕ → ℕ → Option (List ℕ))
    (prep : Result (PageCursor × ℕ × List StoredConversation × List (Option Text)) StatusCode)
    (page : Page ConversationItem)
    → IsInverse a
    → prepared tokens authorization cursor_text requested repository lookup ≡ prep
    → (answered a random prep).1 ≡ ok page
    → (cursor : PageCursor) × (limit : ℕ) × (rows : List StoredConversation) × IsShown tokens
        authorization cursor_text requested repository
        (answered a random prep).0
        page
        cursor
        limit
        rows
unfolding prepared
answered-IsShown a tokens authorization cursor_text requested repository lookup random (err e) page
      v p h =
    absurd (cc h)
answered-IsShown a tokens authorization cursor_text requested repository lookup random
      (ok (cursor, limit, rows, names)) page v p h =
    let (authorized, p₁) = unit_ok (authorize tokens authorization) _ p in
    let (cursor', parsed, p₂) = bound (map_err conversation_status (parse cursor_text)) _ p₁ in
    let (limit', limited, p₃) = bound (page_limit requested) _ p₂ in
    let (rows', stored, p₄) = bound (map_err conversation_status repository) _ p₃ in
    let (names', named, p₅) = bound (display_names lookup (shown_rows rows' cursor' limit')) _ p₄ in
    let e = ok_injective p₅ in
    let ec : cursor' ≡ cursor = ap (λ r. r.0) e in
    let el : limit' ≡ limit = ap (λ r. r.1) e in
    let er : rows' ≡ rows = ap (λ r. r.2) e in
    let en : names' ≡ names = ap (λ r. r.3) e in
    let sizes : length names ≡ length (shown_rows rows cursor limit) =
      ap length (sym en)
      ∙ length-display_names lookup (shown_rows rows' cursor' limit') names' named
      ∙ ap length
          (ap₂ (λ c l. shown_rows rows' c l) ec el ∙ ap (λ r. shown_rows r cursor limit) er) in
    let loop = item_loop a (shown_rows rows cursor limit) names random in
    let (items, made, h₁) = bound loop.1 _ h in
    let shown =
      item_loop-AreItems a (shown_rows rows cursor limit) names random items sizes v made in
    let same = ok_injective h₁ in
    let counts : length items ≡ length (shown_rows rows cursor limit) =
      sym (length-map (λ item. key_for loop.0 item.conversation_id) items)
      ∙ ap length shown.resolved
      ∙ length-map (λ row. some row.conversation_key) (shown_rows rows cursor limit) in
    (
      cursor,
      limit,
      rows,
      record {
        authorized = authorized;
        parsed = map_err-ok conversation_status (parse cursor_text) parsed ∙ ap ok ec;
        limited = limited ∙ ap ok el;
        stored = map_err-ok conversation_status repository stored ∙ ap ok er;
        resolved =
            ap (λ p. map (λ item. key_for loop.0 item.conversation_id) p.items) (sym same)
            ∙ shown.resolved;
        next =
            ap (λ p. p.next_cursor) (sym same)
            ∙ ap (λ n. next_cursor (ltb (end_row rows cursor limit) (length rows)) cursor n) counts;
      },
    )

-- Any operations on the aliases came before. If `conversation_page` then answers a page, the request
-- was authorized, its cursor and its limit were good, and the rows were there; the identifiers of the
-- page's items resolve, by the aliases that are left, to the conversations of the rows that the
-- cursor and the limit select, in their order; and the next cursor is that of these rows' page.
pub conversation_page-IsShown :
    (earlier : List AliasOp) (tokens : AuthTokens) (authorization cursor_text : Option Text)
    (requested : Option ℕ) (repository : Result (List StoredConversation) ConversationError)
    (lookup : NameLookup) (random : ℕ → ℕ → Option (List ℕ)) (page : Page ConversationItem)
    → (conversation_page
        (Resolved.run default_aliases earlier)
        tokens
        authorization
        cursor_text
        requested
        repository
        lookup
        random).1
      ≡ ok page
    → (cursor : PageCursor) × (limit : ℕ) × (rows : List StoredConversation) × IsShown tokens
        authorization cursor_text requested repository
        (conversation_page
          (Resolved.run default_aliases earlier)
          tokens
          authorization
          cursor_text
          requested
          repository
          lookup
          random).0
        page
        cursor
        limit
        rows
unfolding conversation_page
conversation_page-IsShown earlier tokens authorization cursor_text requested repository lookup
      random page h =
    answered-IsShown (Resolved.run default_aliases earlier) tokens authorization cursor_text
      requested repository lookup random
      (prepared tokens authorization cursor_text requested repository lookup) page
      (run-IsInverse default_aliases earlier nothing_bound) refl h
