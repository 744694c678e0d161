-- ===== src/Daemon/Auth/Tokens.antt =====
-- Which texts `AuthTokens` matches.
use analogconnect.Base.{
  ◌≡◌, ◌⊎◌, ◌↔◌, inl, inr, refl, sym, ◌∙◌, true, ok, length, arith, Bool-cases, ==_refl,
}
use analogconnect.Base.Text.{Text, as_bytes, same_refl, same→eq}
use analogconnect.Daemon.Auth.{
  AuthToken, new_token, matches_token, matches_tokens, only_current, with_previous,
}

matches_token_iff :
    (token : AuthToken) (s : Text)
    → (matches_token token s ≡ true) ↔ (as_bytes s ≡ token.token_bytes)
unfolding matches_token
matches_token_iff token s = (
  λ h. ground (arith, same→eq token.token_bytes (as_bytes s)),
  λ e. rw (e, ==_refl (length token.token_bytes)) (same_refl token.token_bytes),
)

bytes-new_token :
    (a : Text) (token : AuthToken) → new_token a ≡ ok token → token.token_bytes ≡ as_bytes a
unfolding new_token
bytes-new_token a token h = ground arith

-- With the tokens made of two texts, while one replaces the other, a text is accepted exactly if it has the bytes
-- of one of the two; and with the current one alone, exactly if it has the bytes of that.
pub matches_tokens_iff :
    (a b : Text) (current previous : AuthToken) (s : Text)
    → new_token a ≡ ok current
    → new_token b ≡ ok previous
    → ((matches_tokens (with_previous current previous) s ≡ true)
        ↔ ((as_bytes s ≡ as_bytes a) ⊎ (as_bytes s ≡ as_bytes b)))
      × ((matches_tokens (only_current current) s ≡ true) ↔ (as_bytes s ≡ as_bytes a))
unfolding matches_tokens
matches_tokens_iff a b current previous s ha hb =
    let (there, back) = matches_token_iff current s in
    let (there', back') = matches_token_iff previous s in
    let ea = bytes-new_token a current ha in
    let eb = bytes-new_token b previous hb in
    (
      (
        λ h. elim (Bool-cases (matches_token current s)) [
          | inl t ↦ inl (there t ∙ ea)
          | inr f ↦ inr (there' (ground arith) ∙ eb)
        ],
        λ h. elim h [
          | inl e ↦ rw (back (e ∙ sym ea)) refl
          | inr e ↦ let t = back' (e ∙ sym eb) in ground arith
        ],
      ),
      (λ h. there (ground arith) ∙ ea, λ e. rw (back (e ∙ sym ea)) refl),
    )
