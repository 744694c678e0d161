-- ===== src/Tests/MediaTests.antt =====
-- crates/analogconnectd/src/media_auth.rs.
use analogconnect.Base.{
  ◌⊎◌, ℕ, ◌*◌, ◌<◌, ◌≡◌, refl, List, [], ◌∷◌, replicate, map, some, ok, err, true, false, arith,
}
use analogconnect.Base.Text.{Text, same, len, as_bytes, to_ascii_lowercase}
use analogconnect.Base.Words.{IsBytes}
use analogconnect.Daemon.Hex.{encode_hex, decode_hex, decode_pairs, decode_nibble, hex_digit}
use analogconnect.Daemon.MediaAuth.{
  Grant, Enrollment, Call, issues, claims, second, unauthorized, empty_registry, issue, issue_grant,
  replace, claim, claim_grant, authorize, run, step,
}
use analogconnect.Daemon.MediaAuth.Exclusive.{active_leases, current, one_active_lease}
use analogconnect.Daemon.MediaAuth.Enrolled.{claim-issued, authorize_sound}

abbrev sixteen : List ℕ
sixteen = 0 ∷ 1 ∷ 2 ∷ 3 ∷ 4 ∷ 5 ∷ 6 ∷ 7 ∷ 8 ∷ 9 ∷ 10 ∷ 171 ∷ 205 ∷ 239 ∷ 254 ∷ 255 ∷ []

sixteen-IsBytes : IsBytes sixteen
sixteen-IsBytes = ground arith

abbrev entropy : List ℕ
entropy = replicate 48 7

entropy-IsBytes : IsBytes entropy
entropy-IsBytes = ground arith

-- "0AfF".
abbrev mixed : Text
mixed = 48 ∷ 65 ∷ 102 ∷ 70 ∷ []

mixed-decoded : decode_hex 2 mixed ≡ (10 ∷ 255 ∷ [], true)
unfolding decode_hex decode_pairs decode_nibble len as_bytes
mixed-decoded = refl

abbrev other_entropy : List ℕ
other_entropy = replicate 48 9

abbrev session_text : Text
session_text = encode_hex (replicate 16 7)

abbrev token_text : Text
token_text = encode_hex (replicate 32 7)

-- A session is issued and claimed, and replaced while its lease is held; the new one is claimed.
abbrev calls : List Call
calls =
    issues (some entropy) (30 * second) 0
    ∷ claims session_text token_text second
    ∷ issues (some other_entropy) (30 * second) second
    ∷ claims (encode_hex (replicate 16 9)) (encode_hex (replicate 32 9)) (2 * second)
    ∷ []

held_after_calls : (run empty_registry calls).held ≡ 1 ∷ 0 ∷ []
unfolding run step issue issue_grant replace claim claim_grant authorize encode_hex hex_digit
    decode_hex decode_pairs decode_nibble same len as_bytes
held_after_calls = refl

one_active_lease_example :
    (active_leases (run empty_registry calls) ≡ [])
    ⊎ ((i : ℕ) × (active_leases (run empty_registry calls) ≡ i ∷ [])
        × (current (run empty_registry calls).active ≡ some i))
one_active_lease_example = one_active_lease calls

claim-issued_example :
    (enrollment : Enrollment) × ((issue empty_registry (some entropy) (30 * second) 5).1
      ≡ ok enrollment)
    × ((claim
          (issue empty_registry (some entropy) (30 * second) 5).0
          enrollment.session_id
          enrollment.token
          second).1
        ≡ ok 0)
    × ((session_id token : Text) (time : ℕ)
        → claim
            (claim
              (issue empty_registry (some entropy) (30 * second) 5).0
              enrollment.session_id
              enrollment.token
              second).0
            session_id
            token
            time
          ≡ (
            (claim
                (issue empty_registry (some entropy) (30 * second) 5).0
                enrollment.session_id
                enrollment.token
                second).0,
            err unauthorized,
          ))
claim-issued_example =
    claim-issued empty_registry entropy (30 * second) 5 second entropy-IsBytes refl (omega arith)
      (omega arith) (omega arith)

abbrev grant : Grant
grant = record {
  token = replicate 32 7;
  expires_at = 30 * second;
  revoked = false;
  claimed = false;
}

grant_authorizes : authorize grant token_text second ≡ true
unfolding authorize encode_hex hex_digit decode_hex decode_pairs decode_nibble same len as_bytes
grant_authorizes = refl

authorize_sound_example :
    (encode_hex (replicate 32 7) ≡ map to_ascii_lowercase token_text)
    × (second < 30 * second)
    × (false ≡ false)
authorize_sound_example = authorize_sound grant token_text second grant_authorizes
