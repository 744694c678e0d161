-- ===== src/Tests/CallTests.antt =====
-- `execute_call_command` of crates/analogconnectd/src/lib.rs.
use analogconnect.Base.{ℕ, suc, ◌≡◌, ◌⊎◌, refl, true, Option, some, List, [], ok, err}
use analogconnect.Base.Text.{Text, chars, same, trim, len, as_bytes}
use analogconnect.Core.Hfp.{CallCommand, parse_dial_target}
use analogconnect.Daemon.Auth.{
  AuthTokens, new_limiter, only_current, allow_at, matches_tokens, matches_token,
}
use analogconnect.Daemon.Server.Guards.{
  authorize, authorize_mutation, strip_prefix, unprocessable_entity,
}
use analogconnect.Daemon.Server.Calls.{
  CallCommandRequest, dial, send_dtmf, validate, Execution, executed, requested, CommandState,
  execute_call_command,
}
use analogconnect.Daemon.Server.Calls.Executed.{IsRefused, IsExecuted, execute_call_command_lem}

-- A backend that counts the commands.
abbrev counting : ℕ → CallCommand → ℕ × Execution
counting n command = (suc n, executed)

abbrev tokens : AuthTokens
tokens = only_current (record { token_bytes = chars "secret" })

abbrev bearer : Option Text
bearer = some (chars "Bearer secret")

abbrev start : CommandState ℕ
start = record { limiter = new_limiter 5 1000 0; backend = 0 }

abbrev parser : List ℕ → Option CallCommandRequest
parser body = some (dial (chars "+15550100"))

two_tones : validate (send_dtmf (chars "12")) ≡ err unprocessable_entity
unfolding validate
two_tones = refl

dialled :
    ((execute_call_command counting start tokens bearer 1 parser []).0.backend ≡ 1)
    × ((execute_call_command counting start tokens bearer 1 parser []).1 ≡ ok true)
unfolding execute_call_command requested validate parse_dial_target trim len as_bytes authorize
    authorize_mutation allow_at matches_tokens matches_token same strip_prefix new_limiter
dialled = (refl, refl)

execute_call_command_lem_example :
    IsRefused start tokens bearer 1 parser []
      (execute_call_command counting start tokens bearer 1 parser [])
    ⊎ IsExecuted counting start tokens bearer 1 parser []
        (execute_call_command counting start tokens bearer 1 parser [])
execute_call_command_lem_example = execute_call_command_lem counting start tokens bearer 1 parser []
