-- ===== src/Daemon/Ancs/Protocol/Reassembly.antt =====
-- A response that comes in fragments.
use analogconnect.Base.{
  ℕ, ◌+◌, ◌<◌, ◌≤◌, ◌≡◌, refl, sym, ap, ◌∙◌, Option, none, some, List, [], ◌∷◌, ◌++◌, length, ltb,
  false, length-append, append_assoc, append-nil, replicate, arith,
}
use analogconnect.Daemon.Ancs.Attributes.{parse_attributes}
use analogconnect.Daemon.Ancs.Attributes.RoundTrip.{
  AreValues, response_of, parse_attributes-part, parse_attributes-response,
}
use analogconnect.Daemon.Ancs.Protocol.{
  AncsProtocolConsumer, AncsNotificationMetadata, data_source, received, answered, metadata_of,
  start_next, remembered, max_response_bytes, with_metadata,
}

-- The outputs of a consumer that is given fragments one after the other.
abbrev pub Output : Type 0
Output = Option AncsNotificationMetadata × Option (List ℕ)

abbrev pub feed : AncsProtocolConsumer → List (List ℕ) → AncsProtocolConsumer × List Output
feed c [] = (c, [])
feed c (fragment ∷ fragments) =
    let (c', metadata, request) = data_source c fragment in
    let (c'', outputs) = feed c' fragments in (c'', (metadata, request) ∷ outputs)

abbrev pub concat : List (List ℕ) → List ℕ
concat [] = []
concat (xs ∷ xss) = xs ++ concat xss

data_source-received :
    (c : AncsProtocolConsumer) (fragment uid : List ℕ)
    → c.pending ≡ some uid
    → length (c.response ++ fragment) ≤ max_response_bytes
    → data_source c fragment
      ≡ answered
          (record c { response = c.response ++ fragment })
          uid
          (parse_attributes (c.response ++ fragment))
unfolding data_source
data_source-received c fragment uid e few =
    let fits : ltb max_response_bytes (length c.response + length fragment) ≡ false =
      ground (arith, length-append c.response fragment) in
    ap (received c fragment) e ∙ rw fits refl

data_source-part :
    (c : AncsProtocolConsumer) (fragment uid : List ℕ)
    → c.pending ≡ some uid
    → length (c.response ++ fragment) ≤ max_response_bytes
    → parse_attributes (c.response ++ fragment) ≡ none
    → data_source c fragment ≡ (record c { response = c.response ++ fragment }, none, none)
data_source-part c fragment uid e few h =
    data_source-received c fragment uid e few
    ∙ ap (answered (record c { response = c.response ++ fragment }) uid) h

-- The consumer once the pending notification is completed, and the request that it makes.
abbrev pub completed_next : AncsProtocolConsumer → List ℕ → AncsProtocolConsumer × Option (List ℕ)
completed_next c uid =
    start_next (record c { pending = none; response = []; completed = remembered c.completed uid })

data_source-last :
    (c : AncsProtocolConsumer) (fragment uid : List ℕ) (values : List (List ℕ)) (consumed : ℕ)
    → c.pending ≡ some uid
    → length (c.response ++ fragment) ≤ max_response_bytes
    → parse_attributes (c.response ++ fragment) ≡ some (values, consumed)
    → data_source c fragment ≡ with_metadata (metadata_of uid values) (completed_next c uid)
unfolding start_next
data_source-last c fragment uid values consumed e few h =
    data_source-received c fragment uid e few
    ∙ ap (answered (record c { response = c.response ++ fragment }) uid) h

feed-fragments :
    (c : AncsProtocolConsumer) (uid from last : List ℕ) (fragments values : List (List ℕ))
    → c.pending ≡ some uid
    → length from ≡ 4
    → length values ≡ 7
    → AreValues values
    → c.response ++ (concat fragments ++ last) ≡ response_of from values
    → 0 < length last
    → length (response_of from values) ≤ max_response_bytes
    → feed c (fragments ++ (last ∷ [])) ≡ (
      (completed_next c uid).0,
      replicate (length fragments) (none, none)
          ++ ((metadata_of uid values, (completed_next c uid).1) ∷ []),
    )
feed-fragments c uid from last [] values e four seven v whole ends few =
    let parsed : parse_attributes (c.response ++ last)
        ≡ some (values, length (response_of from values)) =
      ap parse_attributes (whole ∙ sym (append-nil (response_of from values)))
      ∙ parse_attributes-response from values [] four seven v in
    ap (λ r. (r.0, (r.1, r.2) ∷ []))
      (data_source-last c last uid values (length (response_of from values)) e (rw whole few)
        parsed)
feed-fragments c uid from last (fragment ∷ fragments) values e four seven v whole ends few =
    let later = concat fragments ++ last in
    let shifted : (c.response ++ fragment) ++ later ≡ response_of from values =
      append_assoc c.response fragment later
      ∙ ap (◌++◌ c.response) (sym (append_assoc fragment (concat fragments) last))
      ∙ whole in
    let sizes : length (response_of from values) ≡ length (c.response ++ fragment) + length later =
      ap length (sym shifted) ∙ length-append (c.response ++ fragment) later in
    let short : length (c.response ++ fragment) < length (response_of from values) =
      omega (arith, length-append (concat fragments) last) in
    let unfinished =
      parse_attributes-part from (c.response ++ fragment) later values four seven v shifted short in
    let c' = record c { response = c.response ++ fragment } in
    ap
      (λ (r : AncsProtocolConsumer × Option AncsNotificationMetadata × Option (List ℕ)).
        let more = feed r.0 (fragments ++ (last ∷ [])) in (more.0, (r.1, r.2) ∷ more.1))
      (data_source-part c fragment uid e (omega arith) unfinished)
    ∙ ap (λ (r : AncsProtocolConsumer × List Output). (r.0, (none, none) ∷ r.1))
        (feed-fragments c' uid from last fragments values e four seven v shifted ends few)

-- A response in fragments: the bytes of the UID and the values of the attributes are as the source
-- expects, it fits, and the last fragment is not empty.
pub record IsFragmented (fragments : List (List ℕ)) (last from : List ℕ) (values : List (List ℕ))
    : Type 0 where
  pub four : length from ≡ 4
  pub seven : length values ≡ 7
  pub are_values : AreValues values
  pub joined : concat fragments ++ last ≡ response_of from values
  pub ends : 0 < length last
  pub fits : length (response_of from values) ≤ max_response_bytes

-- A notification is pending and none of its response has come. A response of seven attributes, not
-- longer than the limit, comes in fragments of any number and size, the last one not empty. Then the
-- fragments before the last have no output; at the last one the consumer gives the metadata of the
-- response's values, completes the notification, drops the response, and requests the next one.
pub feed-response :
    (c : AncsProtocolConsumer) (uid last from : List ℕ) (fragments values : List (List ℕ))
    → c.pending ≡ some uid
    → c.response ≡ []
    → IsFragmented fragments last from values
    → feed c (fragments ++ (last ∷ [])) ≡ (
      (completed_next c uid).0,
      replicate (length fragments) (none, none)
          ++ ((metadata_of uid values, (completed_next c uid).1) ∷ []),
    )
feed-response c uid last from fragments values pending fresh f =
    feed-fragments c uid from last fragments values pending f.four f.seven f.are_values
      (ap (λ r. r ++ (concat fragments ++ last)) fresh ∙ f.joined) f.ends f.fits
