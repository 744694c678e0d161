-- ===== src/Daemon/MediaAuth/Enrolled.antt =====
-- What an enrollment opens: the claim of a client that was sent one.
use analogconnect.Base.{
  ℕ, zero, suc, ◌+◌, ◌/◌, ◌≤◌, ◌<◌, ◌≡◌, refl, List, [], ◌∷◌, length, length-take, length-drop,
  take, drop, some, ok, err, true, false, arith, ltb, ==_refl, map,
}
use analogconnect.Base.Text.{Text, same_refl, same→eq, to_ascii_lowercase}
use analogconnect.Base.Words.{IsBytes}
use analogconnect.Daemon.Hex.{encode_hex, decode_hex, decode_hex-encode_hex, encode_hex-decode_hex}
use analogconnect.Daemon.MediaAuth.{
  unauthorized, second, max_lifetime, session_id_bytes, Registry, Grant, Enrollment, issue_grant,
  issue, replace, authorize, claim_grant, claim, is_session,
}

IsBytes-take : (n : ℕ) (bs : List ℕ) → IsBytes bs → IsBytes (take n bs)
IsBytes-take zero bs h = tt
IsBytes-take (suc n) [] h = tt
IsBytes-take (suc n) (b ∷ bs) h = (h.0, IsBytes-take n bs h.1)

IsBytes-drop : (n : ℕ) (bs : List ℕ) → IsBytes bs → IsBytes (drop n bs)
IsBytes-drop zero bs h = h
IsBytes-drop (suc n) [] h = tt
IsBytes-drop (suc n) (b ∷ bs) h = IsBytes-drop n bs h.1

-- The grant and the enrollment that are made from random bytes.
abbrev granted : List ℕ → ℕ → Grant
granted entropy expires_at = record {
  token = drop session_id_bytes entropy;
  expires_at = expires_at;
  revoked = false;
  claimed = false;
}

abbrev enrolled : List ℕ → ℕ → Enrollment
enrolled entropy lifetime_seconds = record {
  session_id = encode_hex (take session_id_bytes entropy);
  token = encode_hex (drop session_id_bytes entropy);
  lifetime_seconds = lifetime_seconds;
}

is_session-issued :
    (entropy : List ℕ)
    → IsBytes entropy
    → length entropy ≡ 48
    → is_session (take session_id_bytes entropy) (encode_hex (take session_id_bytes entropy)) ≡ true
is_session-issued entropy h e = rw (
  decode_hex-encode_hex 16 (take 16 entropy) (IsBytes-take 16 entropy h)
      (length-take 16 entropy (omega arith)),
  same_refl (take 16 entropy),
)

authorize-issued :
    (entropy : List ℕ) (expires_at now : ℕ)
    → IsBytes entropy
    → length entropy ≡ 48
    → now < expires_at
    → authorize (granted entropy expires_at) (encode_hex (drop session_id_bytes entropy)) now ≡ true
unfolding authorize
authorize-issued entropy expires_at now h e soon =
    let early : ltb now expires_at ≡ true = ground arith in
    rw (
      decode_hex-encode_hex 32 (drop 16 entropy) (IsBytes-drop 16 entropy h)
          (omega (arith, length-drop 16 entropy)),
      same_refl (drop 16 entropy),
      early,
    )

issue_grant-granted :
    (entropy : List ℕ) (lifetime now : ℕ)
    → second ≤ lifetime
    → lifetime ≤ max_lifetime
    → issue_grant (some entropy) lifetime now
      ≡ ok (granted entropy (now + lifetime), enrolled entropy (lifetime / second))
unfolding issue_grant
issue_grant-granted entropy lifetime now long short = ground arith

issue-granted :
    (w : Registry) (entropy : List ℕ) (lifetime now : ℕ)
    → IsBytes entropy
    → length entropy ≡ 48
    → second ≤ lifetime
    → lifetime ≤ max_lifetime
    → issue w (some entropy) lifetime now ≡ (
      replace w (take session_id_bytes entropy) (granted entropy (now + lifetime)),
      ok (enrolled entropy (lifetime / second)),
    )
unfolding issue
issue-granted w entropy lifetime now h e long short =
    rw
      (
        issue_grant-granted entropy lifetime now long short,
        issue,
        decode_hex-encode_hex 16 (take 16 entropy) (IsBytes-take 16 entropy h)
            (length-take 16 entropy (omega arith)),
      )
      refl

-- Whatever the registry holds: 48 random bytes and a lifetime of one second to five minutes make an
-- enrollment; its session and token claim the lease of the new grant at any time before the
-- lifetime is over; and a claim that comes next, whatever it presents and whenever, is refused and
-- leaves the registry as it was.
pub claim-issued :
    (w : Registry) (entropy : List ℕ) (lifetime now later : ℕ)
    → IsBytes entropy
    → length entropy ≡ 48
    → second ≤ lifetime
    → lifetime ≤ max_lifetime
    → later < now + lifetime
    → (enrollment : Enrollment) × ((issue w (some entropy) lifetime now).1 ≡ ok enrollment)
      × ((claim
            (issue w (some entropy) lifetime now).0
            enrollment.session_id
            enrollment.token
            later).1
          ≡ ok w.next)
      × ((session_id token : Text) (time : ℕ)
          → claim
              (claim
                (issue w (some entropy) lifetime now).0
                enrollment.session_id
                enrollment.token
                later).0
              session_id
              token
              time
            ≡ (
              (claim
                  (issue w (some entropy) lifetime now).0
                  enrollment.session_id
                  enrollment.token
                  later).0,
              err unauthorized,
            ))
unfolding claim claim_grant replace
claim-issued w entropy lifetime now later h e long short soon =
    let same_id = is_session-issued entropy h e in
    let passes = authorize-issued entropy (now + lifetime) later h e soon in
    (
      enrolled entropy (lifetime / second),
      rw (issue-granted w entropy lifetime now h e long short) refl,
      rw (issue-granted w entropy lifetime now h e long short, same_id, ==_refl w.next, passes)
          refl,
      λ session_id token time.
          rw (issue-granted w entropy lifetime now h e long short, same_id, ==_refl w.next, passes)
            (ground arith),
    )

-- A token that is authorized encodes the grant's token, up to the case of its digits; and the grant
-- is then neither revoked nor expired.
pub authorize_sound :
    (grant : Grant) (presented : Text) (now : ℕ)
    → authorize grant presented now ≡ true
    → (encode_hex grant.token ≡ map to_ascii_lowercase presented)
      × (now < grant.expires_at)
      × (grant.revoked ≡ false)
unfolding authorize
authorize_sound grant presented now h =
    let (candidate, valid) = decode_hex 32 presented in
    let accepted : valid ≡ true = ground arith in
    let equal : grant.token ≡ candidate = same→eq grant.token candidate (ground arith) in
    (encode_hex-decode_hex 32 presented grant.token (ground arith), ground arith, ground arith)
