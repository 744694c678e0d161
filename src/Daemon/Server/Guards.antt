-- ===== src/Daemon/Server/Guards.antt =====
-- The checks that the handlers share: `authorize`, `authorize_mutation`, `page_limit` and
-- `conversation_status`. The value of a header, if it is there and is text, is an argument.
use analogconnect.Base.{
  ℕ, ◌≡◌, arith, Bool, true, false, ◌&&◌, Option, none, some, [], ◌∷◌, Result, ok, err, ◌>>=◌,
  ensure, ok_or, leb, ◌==◌, if◌then◌else◌,
}
use analogconnect.Base.Text.{Text, chars}
use analogconnect.Daemon.Auth.{AuthTokens, MutationLimiter, matches_tokens, allow_at}
use analogconnect.Daemon.Conversations.{
  ConversationError, unavailable, expired, invalid_cursor, random_unavailable, default_page_size,
  max_page_size,
}

-- The statuses of `http::StatusCode` that the handlers answer.
pub data StatusCode : Type 0 where
  created accepted bad_request unauthorized conflict gone payload_too_large : StatusCode
  unprocessable_entity too_many_requests internal_server_error bad_gateway service_unavailable :
      StatusCode

unfoldable pub strip_prefix : Text → Text → Option Text
strip_prefix [] text = some text
strip_prefix (a ∷ prefix) [] = none
strip_prefix (a ∷ prefix) (b ∷ text) = if a == b then strip_prefix prefix text else none

abbrev bearer : Text
bearer = chars "Bearer "

abbrev pub candidate : Option Text → Option Text
candidate none = none
candidate (some value) = strip_prefix bearer value

unfoldable pub authorize : AuthTokens → Option Text → Result (Unit {0}) StatusCode
unfolding strip_prefix
authorize tokens authorization = do
  presented ← ok_or (candidate authorization) unauthorized
  ensure (matches_tokens tokens presented) unauthorized

abbrev pub mutation_status : MutationLimiter × Bool → MutationLimiter × Result (Unit {0}) StatusCode
mutation_status (limiter, true) = (limiter, ok tt)
mutation_status (limiter, false) = (limiter, err too_many_requests)

unfoldable pub authorize_mutation :
    MutationLimiter → ℕ → MutationLimiter × Result (Unit {0}) StatusCode
authorize_mutation limiter now = mutation_status (allow_at limiter now)

abbrev unwrap_or : Option ℕ → ℕ → ℕ
unwrap_or none default = default
unwrap_or (some value) default = value

unfoldable pub page_limit : Option ℕ → Result ℕ StatusCode
page_limit requested =
    let limit = unwrap_or requested default_page_size in
    if leb 1 limit && leb limit max_page_size then ok limit else err unprocessable_entity

abbrev pub conversation_status : ConversationError → StatusCode
conversation_status invalid_cursor = unprocessable_entity
conversation_status expired = gone
conversation_status unavailable = service_unavailable
conversation_status random_unavailable = service_unavailable

-- `map_err`.
abbrev pub map_err {ℓ κ μ} :
    {A : Type ℓ} {D : Type κ} {E : Type μ} → (D → E) → Result A D → Result A E
map_err f (ok a) = ok a
map_err f (err d) = err (f d)

pub map_err-ok {ℓ κ μ} :
    {A : Type ℓ} {D : Type κ} {E : Type μ} (r : Result A D) (f : D → E) {a : A}
    → map_err f r ≡ ok a
    → r ≡ ok a
map_err-ok (ok a) f h = ground arith
map_err-ok (err d) f h = absurd (cc h)
