-- ===== src/Daemon/MediaAuth.antt =====
-- crates/analogconnectd/src/media_auth.rs: the one call-media session, its grant and its leases.
-- Grants are shared by reference (`Arc`), so they live in a store and a reference is a number. Random
-- bytes, the monotonic clock (in nanoseconds) and the lifetime are arguments. A `Drop` of a lease is
-- an operation. The registry's lock is never poisoned, since no code panics while it holds it.
pub mod Exclusive
pub mod Enrolled
use analogconnect.Base.{
  ℕ, suc, ◌+◌, ◌*◌, ◌/◌, Bool, true, false, not, ◌&&◌, ◌||◌, Option, none, some, List, [], ◌∷◌,
  Result, ok, err, ◌>>=◌, ◌>>◌, ensure, ok_or, take, drop, ltb, leb, ◌==◌, if◌then◌else◌, contains,
}
use analogconnect.Base.Text.{Text, same}
use analogconnect.Daemon.Hex.{encode_hex, decode_hex}

abbrev pub session_id_bytes : ℕ
session_id_bytes = 16

abbrev pub token_bytes : ℕ
token_bytes = 32

abbrev pub second : ℕ
second = 1000000000

abbrev pub max_lifetime : ℕ
max_lifetime = 300 * second

pub record Grant : Type 0 where
  pub token : List ℕ
  pub expires_at : ℕ
  pub revoked : Bool
  pub claimed : Bool

pub record Enrollment : Type 0 where
  pub session_id : Text
  pub token : Text
  pub lifetime_seconds : ℕ

pub record ActiveSession : Type 0 where
  pub session_id : List ℕ
  pub grant : ℕ

pub data RegistryError : Type 0 where
  invalid_lifetime random_unavailable unauthorized : RegistryError

-- The store of grants, the registry's `active` session, and the leases that connections hold.
pub record Registry : Type 0 where
  pub grants : ℕ → Grant
  pub next : ℕ
  pub active : Option ActiveSession
  pub held : List ℕ

abbrev pub update : (ℕ → Grant) → ℕ → Grant → ℕ → Grant
update grants i grant j = if i == j then grant else grants j

-- `MediaSessionGrant::revoke` on a shared grant.
abbrev pub revoke_grant : (ℕ → Grant) → ℕ → ℕ → Grant
revoke_grant grants i = update grants i (record (grants i) { revoked = true })

abbrev pub set_claimed : (ℕ → Grant) → ℕ → Bool → ℕ → Grant
set_claimed grants i claimed = update grants i (record (grants i) { claimed = claimed })

-- `MediaSessionGrant::issue`.
unfoldable pub issue_grant : Option (List ℕ) → ℕ → ℕ → Result (Grant × Enrollment) RegistryError
issue_grant random lifetime now = do
  ensure (leb second lifetime && leb lifetime max_lifetime) invalid_lifetime
  entropy ← ok_or random random_unavailable
  let token = drop session_id_bytes entropy
  ok (
    record { token = token; expires_at = now + lifetime; revoked = false; claimed = false },
    record {
      session_id = encode_hex (take session_id_bytes entropy);
      token = encode_hex token;
      lifetime_seconds = lifetime / second;
    },
  )

-- `MediaSessionGrant::authorize`.
unfoldable pub authorize : Grant → Text → ℕ → Bool
unfolding same
authorize grant presented now =
    let (candidate, valid_encoding) = decode_hex token_bytes presented in
    valid_encoding && same grant.token candidate && ltb now grant.expires_at && not grant.revoked

-- `active.replace(replacement)`, with the previous grant revoked.
unfoldable pub replace : Registry → List ℕ → Grant → Registry
replace w session_id grant = record w {
  grants =
      update
        (elim w.active [ none ↦ w.grants | some previous ↦ revoke_grant w.grants previous.grant ])
        w.next grant;
  next = suc w.next;
  active = some (record { session_id = session_id; grant = w.next });
}

-- `MediaSessionRegistry::issue`.
unfoldable pub issue :
    Registry → Option (List ℕ) → ℕ → ℕ → Registry × Result Enrollment RegistryError
issue w random lifetime now = elim (issue_grant random lifetime now) [
  | err e ↦ (w, err e)
  | ok issued ↦
      let (grant, enrollment) = issued in
      let (session_id, _) = decode_hex session_id_bytes enrollment.session_id in
      (replace w session_id grant, ok enrollment)
]

abbrev pub lend : Registry → ℕ → Registry
lend w i = record w { grants = set_claimed w.grants i true; held = i ∷ w.held }

-- `MediaSessionGrant::claim`: the compare-and-exchange of `claimed` fails if it is set.
unfoldable pub claim_grant : Registry → ℕ → Text → ℕ → Registry × Result ℕ RegistryError
claim_grant w i presented now =
    if not (authorize (w.grants i) presented now) || (w.grants i).claimed
    then (w, err unauthorized)
    else (lend w i, ok i)

abbrev pub is_session : List ℕ → Text → Bool
is_session session_id presented =
    let (candidate, valid) = decode_hex session_id_bytes presented in
    valid && same session_id candidate

-- `MediaSessionRegistry::claim`.
unfoldable pub claim : Registry → Text → Text → ℕ → Registry × Result ℕ RegistryError
claim w session_id token now = elim w.active [
  | none ↦ (w, err unauthorized)
  | some session ↦
      if is_session session.session_id session_id
      then claim_grant w session.grant token now
      else (w, err unauthorized)
]

-- `MediaSessionRegistry::revoke`.
unfoldable pub revoke : Registry → Text → Registry × Bool
revoke w session_id = elim w.active [
  | none ↦ (w, false)
  | some session ↦
      if is_session session.session_id session_id
      then (record w { grants = revoke_grant w.grants session.grant; active = none }, true)
      else (w, false)
]

abbrev pub without : ℕ → List ℕ → List ℕ
without i [] = []
without i (x ∷ xs) = if x == i then xs else x ∷ without i xs

abbrev pub give_back : Registry → ℕ → Registry
give_back w i = record w { grants = set_claimed w.grants i false; held = without i w.held }

-- Dropping a lease that is held.
unfoldable pub drop_lease : Registry → ℕ → Registry
drop_lease w i = if contains i w.held then give_back w i else w

-- `MediaSessionLease::is_active`.
abbrev pub is_active : Registry → ℕ → Bool
is_active w i = not (w.grants i).revoked

abbrev no_grant : Grant
no_grant = record { token = []; expires_at = 0; revoked = true; claimed = false }

-- `MediaSessionRegistry::new`.
abbrev pub empty_registry : Registry
empty_registry = record { grants = λ i. no_grant; next = 0; active = none; held = [] }

pub data Call : Type 0 where
  issues : Option (List ℕ) → ℕ → ℕ → Call
  claims : Text → Text → ℕ → Call
  revokes : Text → Call
  drops : ℕ → Call

unfoldable pub step : Registry → Call → Registry
step w (issues random lifetime now) = (issue w random lifetime now).0
step w (claims session_id token now) = (claim w session_id token now).0
step w (revokes session_id) = (revoke w session_id).0
step w (drops i) = drop_lease w i

unfoldable pub run : Registry → List Call → Registry
run w [] = w
run w (c ∷ cs) = run (step w c) cs
