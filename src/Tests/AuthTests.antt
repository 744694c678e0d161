-- ===== src/Tests/AuthTests.antt =====
-- crates/analogconnectd/src/auth.rs.
use analogconnect.Base.{ℕ, ◌*◌, ◌≤◌, ◌≡◌, ◌⊎◌, ◌↔◌, refl, true, List, [], ◌∷◌, ok, replicate, arith}
use analogconnect.Base.Text.{Text, as_bytes}
use analogconnect.Daemon.Auth.{
  AuthToken, new_token, matches_tokens, with_previous, only_current, new_limiter, allow_at,
}
use analogconnect.Daemon.Auth.Windows.{accepted_count, after, accepted_count-new}
use analogconnect.Daemon.Auth.Tokens.{matches_tokens_iff}

abbrev text_of : ℕ → Text
text_of c = replicate 32 c

abbrev token_of : ℕ → AuthToken
token_of c = record { token_bytes = replicate 32 c }

token_of-new :
    (new_token (text_of 65) ≡ ok (token_of 65)) × (new_token (text_of 66) ≡ ok (token_of 66))
unfolding new_token as_bytes
token_of-new = (refl, refl)

matches_tokens_iff_example :
    ((matches_tokens (with_previous (token_of 65) (token_of 66)) (text_of 66) ≡ true) ↔ (
      (as_bytes (text_of 66) ≡ as_bytes (text_of 65))
      ⊎ (as_bytes (text_of 66) ≡ as_bytes (text_of 66))))
    × ((matches_tokens (only_current (token_of 65)) (text_of 66) ≡ true)
        ↔ (as_bytes (text_of 66) ≡ as_bytes (text_of 65)))
matches_tokens_iff_example =
    matches_tokens_iff (text_of 65) (text_of 66) (token_of 65) (token_of 66) (text_of 66)
      token_of-new.0 token_of-new.1

-- Two mutations for each span of ten; the span from 8 on has the end of a window and the next one.
abbrev past : List ℕ
past = 1 ∷ []

abbrev times : List ℕ
times = 8 ∷ 9 ∷ 10 ∷ 11 ∷ 12 ∷ []

accepted-run : accepted_count (after (new_limiter 2 10 0) past) times ≡ 3
unfolding new_limiter allow_at
accepted-run = refl

accepted_count-new_example : accepted_count (after (new_limiter 2 10 0) past) times ≤ 2 * 2
accepted_count-new_example =
    accepted_count-new 2 10 0 8 past times (omega arith) (omega arith) (ground arith)
