-- ===== src/Daemon/Conversations/Aliases/Resolved.antt =====
-- An identifier that was handed out is resolved to its conversation.
use analogconnect.Base.{
  ℕ, zero, suc, ◌≡◌, refl, sym, ap, ◌∙◌, inl, inr, Bool-cases, Option, none, some, Option-cases,
  List, [], ◌∷◌, Result, ok, err, if◌then◌else◌, subst, ok_injective,
}
use analogconnect.Base.Options.{some_injective}
use analogconnect.Base.Text.{Text, same, same→eq, same_refl}
use analogconnect.Daemon.Conversations.{ConversationError, random_unavailable}
use analogconnect.Daemon.Conversations.Aliases.{
  TextMap, get, ConversationAliases, default_aliases, bind, exposed, known_or, expose_stable_id,
  drawn, draw, id_for, key_for,
}
use analogconnect.Daemon.Hex.{encode_hex}

pub data AliasOp : Type 0 where
  exposes : Text → AliasOp
  asks : Text → (ℕ → Option (List ℕ)) → AliasOp

abbrev pub key_of : AliasOp → Text
key_of (exposes key) = key
key_of (asks key random) = key

abbrev pub step :
    ConversationAliases → AliasOp → ConversationAliases × Result Text ConversationError
step a (exposes key) = expose_stable_id a key
step a (asks key random) = id_for a key random

abbrev pub run : ConversationAliases → List AliasOp → ConversationAliases
run a [] = a
run a (op ∷ ops) = run (step a op).0 ops

-- What the keys' map has, the identifiers' map has the other way round.
abbrev pub IsInverse : ConversationAliases → Type 0
IsInverse a = (key id : Text) → get a.key_to_id key ≡ some id → get a.id_to_key id ≡ some key

-- Nothing that was resolved is resolved otherwise later.
abbrev pub Extends : ConversationAliases → ConversationAliases → Type 0
Extends a b = (key id : Text) → get a.id_to_key id ≡ some key → get b.id_to_key id ≡ some key

-- What a step gives.
pub record IsStep (a : ConversationAliases) (key : Text)
    (r : ConversationAliases × Result Text ConversationError) : Type 0 where
  pub inverse : IsInverse r.0
  pub extends : Extends a r.0
  pub resolves : (id : Text) → r.1 ≡ ok id → get r.0.id_to_key id ≡ some key

-- The entry that `bind` puts first is found, and hides only what agrees with it.
get-insert : (entries : TextMap) (key value : Text) → get ((key, value) ∷ entries) key ≡ some value
unfolding get
get-insert entries key value = rw (same_refl key) refl

bind-Extends :
    (a : ConversationAliases) (key id : Text)
    → ((k : Text) → get a.id_to_key id ≡ some k → k ≡ key)
    → Extends a (bind a key id)
unfolding get
bind-Extends a key id owned k i h = elim (Bool-cases (same id i)) [
  | inl t ↦
      let e : id ≡ i = same→eq id i t in
      rw t (ap some (sym (owned k (subst (λ j. get a.id_to_key j ≡ some k) (sym e) h))))
  | inr f ↦ rw f h
]

bind-IsInverse :
    (a : ConversationAliases) (key id : Text)
    → IsInverse a
    → Extends a (bind a key id)
    → IsInverse (bind a key id)
unfolding get
bind-IsInverse a key id v extends k i h = elim (Bool-cases (same key k)) [
  | inl t ↦
      let e : key ≡ k = same→eq key k t in
      let f : id ≡ i =
        some_injective (subst (λ b. (if b then some id else get a.key_to_id k) ≡ some i) t h) in
      subst (λ j. get (bind a key id).id_to_key j ≡ some k) f
        (get-insert a.id_to_key id key ∙ ap some e)
  | inr f ↦
      extends k i (v k i (subst (λ b. (if b then some id else get a.key_to_id k) ≡ some i) f h))
]

bind-IsStep :
    (a : ConversationAliases) (key id : Text)
    → IsInverse a
    → ((k : Text) → get a.id_to_key id ≡ some k → k ≡ key)
    → IsStep a key (bind a key id, ok id)
bind-IsStep a key id v owned =
    let extends = bind-Extends a key id owned in
    record {
      inverse = bind-IsInverse a key id v extends;
      extends = extends;
      resolves = λ i h.
          subst (λ j. get (bind a key id).id_to_key j ≡ some key) (ok_injective h)
            (get-insert a.id_to_key id key);
    }

refused-IsStep :
    (a : ConversationAliases) (key : Text) (e : ConversationError)
    → IsInverse a
    → IsStep a key (a, err e)
refused-IsStep a key e v = record {
  inverse = v;
  extends = λ k i h. h;
  resolves = λ i h. absurd (cc h);
}

known_or-IsStep :
    (a : ConversationAliases) (key : Text) (known : Option Text)
    (other : ConversationAliases × Result Text ConversationError)
    → IsInverse a
    → get a.key_to_id key ≡ known
    → IsStep a key other
    → IsStep a key (known_or a known other)
known_or-IsStep a key none other v e s = s
known_or-IsStep a key (some existing) other v e s = record {
  inverse = v;
  extends = λ k i h. h;
  resolves = λ i h. v key i (e ∙ ap some (ok_injective h));
}

exposed-IsStep :
    (a : ConversationAliases) (key : Text) (owner : Option Text)
    → IsInverse a
    → get a.id_to_key key ≡ owner
    → IsStep a key (exposed a key owner)
exposed-IsStep a key none v e = bind-IsStep a key key v (λ k h. absurd (cc (h, e)))
exposed-IsStep a key (some existing) v e = elim (Bool-cases (same existing key)) [
  | inl t ↦
      let own : existing ≡ key = same→eq existing key t in
      rw t (bind-IsStep a key key v (λ k h. some_injective (sym h ∙ e) ∙ own))
  | inr f ↦ rw f (refused-IsStep a key random_unavailable v)
]

drawn-IsStep :
    (a : ConversationAliases) (key : Text) (bytes : Option (List ℕ))
    (later : ConversationAliases × Result Text ConversationError)
    → IsInverse a
    → IsStep a key later
    → IsStep a key (drawn a key bytes later)
drawn-IsStep a key none later v s = refused-IsStep a key random_unavailable v
drawn-IsStep a key (some bytes) later v s =
    elim (Option-cases (get a.id_to_key (encode_hex bytes))) [
      | inl free ↦ rw free (bind-IsStep a key (encode_hex bytes) v (λ k h. absurd (cc (h, free))))
      | inr (owner, taken) ↦ rw taken s
    ]

pub nothing_bound : IsInverse default_aliases
unfolding get
nothing_bound key id h = absurd (cc h)

draw-IsStep :
    (tries : ℕ) (a : ConversationAliases) (key : Text) (random : ℕ → Option (List ℕ))
    → IsInverse a
    → IsStep a key (draw tries a key random)
unfolding draw
draw-IsStep zero a key random v = refused-IsStep a key random_unavailable v
draw-IsStep (suc tries) a key random v =
    drawn-IsStep a key (random 0) (draw tries a key (λ n. random (suc n))) v
      (draw-IsStep tries a key (λ n. random (suc n)) v)

pub step-IsStep :
    (a : ConversationAliases) (op : AliasOp) → IsInverse a → IsStep a (key_of op) (step a op)
unfolding expose_stable_id id_for
step-IsStep a (exposes key) v =
    known_or-IsStep a key (get a.key_to_id key) (exposed a key (get a.id_to_key key)) v refl
      (exposed-IsStep a key (get a.id_to_key key) v refl)
step-IsStep a (asks key random) v =
    known_or-IsStep a key (get a.key_to_id key) (draw 4 a key random) v refl
      (draw-IsStep 4 a key random v)

pub run-IsInverse :
    (a : ConversationAliases) (ops : List AliasOp) → IsInverse a → IsInverse (run a ops)
run-IsInverse a [] v = v
run-IsInverse a (op ∷ ops) v = run-IsInverse (step a op).0 ops ((step-IsStep a op v).inverse)

run-Extends : (a : ConversationAliases) (ops : List AliasOp) → IsInverse a → Extends a (run a ops)
run-Extends a [] v k i h = h
run-Extends a (op ∷ ops) v k i h =
    let s = step-IsStep a op v in run-Extends (step a op).0 ops s.inverse k i (s.extends k i h)

-- After any operations, an operation gives an identifier; then any further operations follow. The
-- identifier is still resolved to the key of the conversation for which it was given.
pub key_for-run :
    (earlier later : List AliasOp) (op : AliasOp) (id : Text)
    → (step (run default_aliases earlier) op).1 ≡ ok id
    → key_for (run (step (run default_aliases earlier) op).0 later) id ≡ some (key_of op)
unfolding key_for
key_for-run earlier later op id h =
    let v = run-IsInverse default_aliases earlier nothing_bound in
    let s = step-IsStep (run default_aliases earlier) op v in
    run-Extends (step (run default_aliases earlier) op).0 later s.inverse (key_of op) id
      (s.resolves id h)
