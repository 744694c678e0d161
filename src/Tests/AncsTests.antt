-- ===== src/Tests/AncsTests.antt =====
-- crates/analogconnectd/src/ancs_transport.rs.
use analogconnect.Base.{ℕ, ◌^◌, ◌≡◌, refl, none, some, List, [], ◌∷◌, ◌++◌, min, arith}
use analogconnect.Base.Text.{chars, same, member, from_utf8_lossy}
use analogconnect.Base.Words.{to_le_bytes}
use analogconnect.Daemon.Ancs.Attributes.{attribute_request, parse_attributes}
use analogconnect.Daemon.Ancs.Protocol.{
  AncsProtocolConsumer, default_consumer, messages_app, metadata_of, notification_source,
  data_source, notification_action_request, negative,
}
use analogconnect.Daemon.Ancs.Protocol.Reassembly.{
  feed, completed_next, IsFragmented, feed-response,
}
use analogconnect.Daemon.Ancs.Protocol.Replay.{IsConsumer}
use analogconnect.Daemon.Ancs.Protocol.Requests.{ConsumerOp, notices, responds, run, run-IsConsumer}
use analogconnect.Daemon.Ancs.Supervisor
use analogconnect.Daemon.Ancs.Supervisor.{
  SupervisorEvent, SupervisorCommand, write_control_point, retry_after_seconds, default_supervisor,
  connected, notification_source_subscribed, data_source_subscribed, disconnected, failed, connects,
  notification_source_subscribes, data_source_subscribes, disconnects, notifies, backoff_connected,
}
use analogconnect.Daemon.Ancs.Supervisor.Backoff.{disconnected-run}
use analogconnect.Daemon.Ancs.Supervisor.Written.{IsWrite, run-IsWrite}

abbrev uid : List ℕ
uid = 1 ∷ 2 ∷ 3 ∷ 4 ∷ []

abbrev later : List ℕ
later = 9 ∷ 9 ∷ 9 ∷ 9 ∷ []

abbrev waiting : AncsProtocolConsumer
waiting = record { queued = later ∷ []; completed = []; pending = some uid; response = [] }

abbrev values : List (List ℕ)
values = messages_app ∷ chars "Ann" ∷ chars "Bob" ∷ [] ∷ [] ∷ chars "Reply" ∷ chars "Clear" ∷ []

abbrev first : List ℕ
first = 0 ∷ 1 ∷ 2 ∷ []

abbrev last : List ℕ
last =
    3 ∷ 4 ∷ (0 ∷ 19 ∷ 0 ∷ messages_app)
    ++ ((1 ∷ 3 ∷ 0 ∷ chars "Ann")
        ++ ((2 ∷ 3 ∷ 0 ∷ chars "Bob")
            ++ (4
                ∷ 0
                ∷ 0
                ∷ 5
                ∷ 0
                ∷ 0
                ∷ 6
                ∷ 5
                ∷ 0
                ∷ (chars "Reply" ++ (7 ∷ 5 ∷ 0 ∷ chars "Clear")))))

fragmented : IsFragmented (first ∷ []) last uid values
fragmented = record {
  four = refl;
  seven = refl;
  are_values = omega arith;
  joined = refl;
  ends = omega arith;
  fits = omega arith;
}

feed-response_example : feed waiting (first ∷ last ∷ []) ≡ (
  (completed_next waiting uid).0,
  (none, none) ∷ (metadata_of uid values, (completed_next waiting uid).1) ∷ [],
)
feed-response_example = feed-response waiting uid last uid (first ∷ []) values refl refl fragmented

found :
    metadata_of uid values
    ≡ some (record {
      uid = uid;
      title = chars "Ann";
      subtitle = chars "Bob";
      positive_action_label = chars "Reply";
      negative_action_label = chars "Clear";
    })
unfolding same from_utf8_lossy
found = refl

-- An announcement of the notification, and of another while it is pending.
abbrev announcement : List ℕ → List ℕ
announcement bytes = 0 ∷ 0 ∷ 4 ∷ 1 ∷ bytes

abbrev history : List ConsumerOp
history = notices (announcement uid) ∷ notices (announcement later) ∷ responds (0 ∷ 1 ∷ []) ∷ []

run-IsConsumer_example : IsConsumer (run default_consumer history)
run-IsConsumer_example = run-IsConsumer history

ran :
    run default_consumer history
    ≡ record { queued = later ∷ []; completed = []; pending = some uid; response = 0 ∷ 1 ∷ [] }
unfolding notification_source data_source member same parse_attributes attribute_request to_le_bytes
ran = refl

action_request : notification_action_request uid negative ≡ 2 ∷ 1 ∷ 2 ∷ 3 ∷ 4 ∷ 1 ∷ []
unfolding notification_action_request
action_request = refl

-- U+FFFD stands for a byte that starts no character, and for an unfinished one.
lossy :
    from_utf8_lossy (0xc3 ∷ 0xa9 ∷ 0xff ∷ 0x41 ∷ 0xe2 ∷ 0x82 ∷ [])
    ≡ 0xe9 ∷ 0xfffd ∷ 0x41 ∷ 0xfffd ∷ []
unfolding from_utf8_lossy
lossy = refl

abbrev subscribed : List SupervisorEvent
subscribed = connects ∷ notification_source_subscribes ∷ data_source_subscribes ∷ []

abbrev lost : List SupervisorEvent
lost = subscribed ++ (disconnects ∷ disconnects ∷ [])

disconnected-run_example :
    (disconnected (Supervisor.run default_supervisor lost)).1 ≡ retry_after_seconds (2 ^ min 3 6)
disconnected-run_example = disconnected-run lost

requested :
    (Supervisor.step (Supervisor.run default_supervisor subscribed) (notifies (announcement uid))).1
    ≡ some (write_control_point (attribute_request uid))
unfolding connected notification_source_subscribed data_source_subscribed notification_source
    Supervisor.notification_source member
requested = refl

run-IsWrite_example :
    IsWrite subscribed
      (Supervisor.run default_supervisor subscribed)
      (Supervisor.step
        (Supervisor.run default_supervisor subscribed)
        (notifies (announcement uid))).0
      (attribute_request uid)
run-IsWrite_example =
    run-IsWrite subscribed (notifies (announcement uid)) (attribute_request uid) requested
