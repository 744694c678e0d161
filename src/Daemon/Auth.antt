-- ===== src/Daemon/Auth.antt =====
-- crates/analogconnectd/src/auth.rs: API tokens and the limit on mutations.
-- Times are nanoseconds of a monotonic clock. The lock is never poisoned, since no code panics
-- while it holds it. Comparison in constant time is comparison.
pub mod Windows
pub mod Tokens
use analogconnect.Base.{
  ℕ, ◌+◌, ◌-◌, min, Bool, true, false, not, ◌&&◌, ◌||◌, Option, none, some, List, [], ◌∷◌, Result,
  ok, err, length, ltb, leb, ◌==◌, if◌then◌else◌, ◌^◌,
}
use analogconnect.Base.Text.{Text, as_bytes, same}

pub data AuthTokenError : Type 0 where
  invalid_length : AuthTokenError

pub record AuthToken : Type 0 where
  pub token_bytes : List ℕ

unfoldable pub new_token : Text → Result AuthToken AuthTokenError
unfolding as_bytes
new_token token =
    let bytes = as_bytes token in
    if ltb (length bytes) 32 || ltb 256 (length bytes)
    then err invalid_length
    else ok (record { token_bytes = bytes })

unfoldable pub matches_token : AuthToken → Text → Bool
unfolding as_bytes same
matches_token token presented =
    let candidate = as_bytes presented in
    if not (length candidate == length token.token_bytes)
    then false
    else same token.token_bytes candidate

pub record AuthTokens : Type 0 where
  pub current : AuthToken
  pub previous : Option AuthToken

abbrev pub only_current : AuthToken → AuthTokens
only_current current = record { current = current; previous = none }

abbrev pub with_previous : AuthToken → AuthToken → AuthTokens
with_previous current previous = record { current = current; previous = some previous }

abbrev pub is_some_and : Option AuthToken → (AuthToken → Bool) → Bool
is_some_and none test = false
is_some_and (some token) test = test token

unfoldable pub matches_tokens : AuthTokens → Text → Bool
unfolding matches_token
matches_tokens tokens candidate =
    matches_token tokens.current candidate
    || is_some_and tokens.previous (λ token. matches_token token candidate)

pub record MutationLimiter : Type 0 where
  pub maximum : ℕ
  pub window : ℕ
  pub started_at : ℕ
  pub accepted : ℕ

unfoldable pub new_limiter : ℕ → ℕ → ℕ → MutationLimiter
new_limiter maximum window now = record {
  maximum = maximum;
  window = window;
  started_at = now;
  accepted = 0;
}

-- A window that is over is followed by a new one; `saturating_duration_since` stops at 0.
abbrev pub renewed : MutationLimiter → ℕ → MutationLimiter
renewed l now =
    if leb l.window (now - l.started_at) then record l { started_at = now; accepted = 0 } else l

abbrev pub u32_max : ℕ
u32_max = 2 ^ 32 - 1

abbrev pub admit : MutationLimiter → MutationLimiter × Bool
admit l =
    if leb l.maximum l.accepted
    then (l, false)
    else (record l { accepted = min (l.accepted + 1) u32_max }, true)

unfoldable pub allow_at : MutationLimiter → ℕ → MutationLimiter × Bool
allow_at l now = admit (renewed l now)
