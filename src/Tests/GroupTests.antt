-- ===== src/Tests/GroupTests.antt =====
-- crates/analogconnectd/src/ancs_groups.rs.
use analogconnect.Base.{ℕ, ◌≡◌, refl, some, List, [], ◌∷◌, ◌++◌, replicate}
use analogconnect.Base.Text.{Text, chars, same, member}
use analogconnect.Daemon.Hex.{encode_hex}
use analogconnect.Daemon.AncsGroups.{
  PendingAncsNotification, PendingMapMessage, group, ambiguous, AncsMapCorrelator, new_correlator,
  correlate_map, observe_ancs, normalize_ancs_subtitle, positions,
}
use analogconnect.Daemon.AncsGroups.Unique.{
  MapOutcome, AncsOutcome, correlate_map-MapOutcome, observe_ancs-AncsOutcome,
}

-- Texts that are normalized already, and a digest of no interest.
abbrev unfolded : Text → Text
unfolded text = text

abbrev digest : List ℕ → List ℕ
digest bytes = replicate 32 7

abbrev notification : ℕ → PendingAncsNotification
notification uid = record {
  notification_uid = uid ∷ 0 ∷ 0 ∷ 0 ∷ [];
  title = chars "ann";
  subtitle = chars "the  club ";
  observed_unix_millis = 100;
}

abbrev message : Text → PendingMapMessage
message handle = record {
  map_handle = handle;
  sender = chars "+15550100";
  sender_display_name = some (chars "ann");
  observed_unix_millis = 103;
}

abbrev waiting : AncsMapCorrelator
waiting = record (new_correlator 5) { notifications = notification 1 ∷ [] }

correlate_map-MapOutcome_example :
    MapOutcome unfolded digest waiting
      (message (chars "m"))
      (correlate_map unfolded digest waiting (message (chars "m")))
correlate_map-MapOutcome_example =
    correlate_map-MapOutcome unfolded digest waiting (message (chars "m"))

normalized : normalize_ancs_subtitle unfolded digest (chars "the  club ") ≡ chars "the club"
unfolding normalize_ancs_subtitle
normalized = refl

grouped :
    (correlate_map unfolded digest waiting (message (chars "m"))).1
    ≡ group
        (chars "m")
        (1 ∷ 0 ∷ 0 ∷ 0 ∷ [])
        (chars "ancs-v1-" ++ encode_hex (replicate 32 7))
        (chars "the  club ")
        (chars "+15550100")
        100
unfolding correlate_map positions same
grouped = refl

-- Two messages wait that a notification matches alike, and then a third one comes.
abbrev crowded : AncsMapCorrelator
crowded = record (new_correlator 5) { messages = message (chars "m") ∷ message (chars "n") ∷ [] }

observe_ancs-AncsOutcome_example :
    AncsOutcome unfolded digest crowded
      (notification 1)
      (observe_ancs unfolded digest crowded (notification 1))
observe_ancs-AncsOutcome_example = observe_ancs-AncsOutcome unfolded digest crowded (notification 1)

open_choice :
    (observe_ancs unfolded digest crowded (notification 1)).1
    ≡ some (ambiguous (chars "m" ∷ chars "n" ∷ []) 100)
unfolding observe_ancs positions same member
open_choice = refl

later_choice :
    (correlate_map unfolded digest
      (observe_ancs unfolded digest crowded (notification 1)).0
      (message (chars "o"))).1
    ≡ group
        (chars "o")
        (1 ∷ 0 ∷ 0 ∷ 0 ∷ [])
        (chars "ancs-v1-" ++ encode_hex (replicate 32 7))
        (chars "the  club ")
        (chars "+15550100")
        100
unfolding observe_ancs correlate_map positions same member
later_choice = refl
