-- ===== src/Lib.antt =====
-- AnalogConnect joins a telephone to a PipeWire desktop and an Android client: a daemon holds the
-- telephone's Bluetooth profiles, carries call audio between the telephone and the client, and
-- keeps messages and contacts in step. This library models its Rust code: a shared core crate,
-- crates/analogconnect-core, and the daemon, crates/analogconnectd. Each operation of the code is
-- a function here, translated from the source with all its branches; state is passed explicitly,
-- and fallible code returns a `Result`, as Rust does.
--
-- The parts and how they interact
--
-- The core crate has the data that the daemon's parts exchange. Its state machines (src/state.rs)
-- guard each change of a status: CallController asks the machine of calls, MessageSyncCoordinator
-- that of synchronisation, and ScoTeardownWatchdog reports states of the audio transport. Its
-- call commands (src/hfp.rs) are what the controller gives to a backend. Its frames and packets
-- (src/audio.rs) are what the audio parts of the daemon move: live PCM is cut into frames, a
-- bounded queue hands them from one thread to another, the media bridge makes packets of them,
-- and the client's packets go by way of the jitter buffer. A client may open the media connection
-- only with a lease, which the registry of media sessions grants for an enrollment.
--
--   Base            Rust's library as the code uses it: numbers and byte orders (Words), lists (Lists,
--                   Newest), Option and Result (Options, Results), str (Text), BTreeMap (SortedMap), Boolean tests (Tests)
--   Core.State      crates/analogconnect-core/src/state.rs, a file for each machine: `transition_to`
--   Core.Hfp        crates/analogconnect-core/src/hfp.rs: DialTarget, DtmfTone, Gain, CallCommand
--   Core.Audio      crates/analogconnect-core/src/audio.rs: AudioFrame::new; in Packet, the fixed
--                   big-endian header and little-endian samples of AudioPacket::encode and decode
--   Daemon.Hfp      crates/analogconnectd/src/hfp.rs: Controller is CallController and next_state, AtBackend
--                   is AtCommandBackend, Aggregate is LiveCallState and aggregate_call_state
--   Daemon.Audio    crates/analogconnectd/src/audio.rs: Jitter is JitterBuffer, Queue is
--                   BoundedAudioQueue and AudioBridge, Pcm is PcmFrameReader and PcmFrameWriter,
--                   MediaBridge is FramedPcmMediaBridge, Watchdog is ScoTeardownWatchdog
--   Daemon.Auth     crates/analogconnectd/src/auth.rs: AuthToken, AuthTokens and MutationLimiter
--   Daemon.MediaAuth, Daemon.Hex
--                   crates/analogconnectd/src/media_auth.rs: MediaSessionGrant, MediaSessionLease and
--                   MediaSessionRegistry, and the hexadecimal codec
--   Daemon.Messages crates/analogconnectd/src/messages.rs: Scheduler is MessageSyncScheduler, Coordinator is
--                   MessageSyncCoordinator, Operations is OutboundMessage, MessageOperationId and
--                   MessageOperationRegistry
--   Daemon.Ancs     crates/analogconnectd/src/ancs_transport.rs: Attributes is attribute_request and
--                   parse_attributes, Protocol is AncsProtocolConsumer, Supervisor is AncsSupervisor
--                   and ReconnectBackoff
--   Daemon.AncsGroups
--                   crates/analogconnectd/src/ancs_groups.rs: AncsMapCorrelator and ancs_group_id; Apply is
--                   apply_correlation
--   Daemon.Conversations
--                   crates/analogconnectd/src/conversations.rs: Cursor is PageCursor, Aliases is
--                   ConversationAliases, Repository is InMemoryConversationRepository
--   Daemon.Server   crates/analogconnectd/src/lib.rs: Stream is decode_audio_batch, receive_uplink_packet
--                   and take_downlink_batch, the messages of the media socket; Guards is authorize,
--                   authorize_mutation and page_limit, which the handlers share; Pages is the handlers
--                   conversation_page and conversation_messages; Messages is the handler send_message;
--                   Calls is CallCommandRequest and the handler execute_call_command;
--                   Runtime is refresh_runtime_status and the handler create_audio_session, which
--                   join the watchdog, the status and the registry of media sessions
--   Tests           runs on concrete inputs, and the theorems applied where their hypotheses hold
--
-- How the code is modelled
--
-- Machine integers are native numbers, with the saturation, the checked addition and the bounds
-- that the source has written out. A sample is the 16-bit pattern of its i16. A text is the list
-- of its code points, and its length counts the bytes of its UTF-8 encoding. Instants and
-- durations are nanoseconds, and each operation that reads a clock takes the time as an argument.
-- A hash set is a list without repetition, and a BTreeMap an ascending list of entries. Grants
-- are shared by reference, so that they are numbers into a store; dropping a lease is an
-- operation. A hash map of texts is a list of entries, the latest first, and a request's body is
-- parsed by a function that is an argument. A byte stream is the list of what its reads deliver. Every loop is a recursion on
-- the data that it consumes, or on how many turns the source allows it; only the UTF-8 decoder of
-- Base.Text has fuel, the number of bytes, of which each character takes one at least. Telephone backends, the backend of message
-- synchronisation, the message store, Unicode's case folding, SHA-256, randomness and wall clocks are code or devices outside the repository: they
-- are arguments, and no theorem assumes anything of them but what it states. Operations under a
-- lock are single steps, and locks are not poisoned, since nothing panics while it holds one
-- (but Runtime has the branch of a poisoned watchdog);
-- calls of the message coordinator come one after the other.
--
-- What is not modelled
--
-- The other HTTP handlers of crates/analogconnectd/src/lib.rs and the loops of its sockets and
-- tasks, the BlueZ bearer (ancs_bluez.rs) and contacts; of conversations.rs, the rows of the message
-- store; of hfp.rs, the WirePlumber backend and the D-Bus telephony paths; of audio.rs, the worker threads and the search
-- for SCO nodes. Processes, D-Bus and SQLite are I/O; the vendored imsg libraries are another
-- project's; the Android client and the scripts are in other languages.
pub mod Base
pub mod Core
pub mod Daemon
pub mod Tests
