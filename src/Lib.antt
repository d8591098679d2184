-- ===== src/Lib.antt =====
-- mxdx: a Matrix-based fabric in which clients submit sessions to workers, through a coordinator,
-- with a peer-to-peer data channel beside the Matrix rooms.
--
-- Parts and files. Paths are from the root of the repository.
--
-- Prelude, Prelude/Tests, Prelude/Lists, Prelude/Decimal, Prelude/Bytes, Prelude/Chars, Prelude/Dict,
-- Prelude/Maps, Prelude/Texts, Prelude/Results: Boolean tests, lists and results over
-- the native numbers, `format!("{}", n)` of an unsigned number, and HashMap with text keys as an
-- association list with one entry for a key. The order of its entries stands for the order in which
-- a HashMap is iterated.
--
-- P2p: crates/mxdx-p2p/src.
--   P2p/Channel is the data of channel/mod.rs, P2p/Signaling that of signaling/events.rs and
--   signaling/parse.rs. P2p/Glare is `resolve` and `invert` of signaling/glare.rs.
--   P2p/State is transport/state.rs. State/Effects has the commands and the telemetry, State/Types the
--   states (one record for the fields of a variant), the events and the results; State/Before,
--   State/Handshake and State/After have the arms of `transition` up to Inviting, from Answering to
--   Verifying, and from Open to Failed; State/Transition puts them together in the order of the
--   match. An arm that matches on the event again is a function of its own (`answering_channel`).
--   `Instant::now()` is a reading of a clock: a transition gets a function whose value at n is the
--   n-th reading, in milliseconds. State/Safety, State/Reports and State/Run are about this part.
--   P2p/Driver is transport/driver.rs with the limits of transport/mod.rs. Driver/Types has the task's
--   state and its configuration, Driver/Commands `apply_command`, `tear_down`,
--   `handle_configure_ice_servers` and `drain_outbound`, Driver/Loop `spawn`, `dispatch`,
--   `handle_control` and `run`, Driver/Guards `record_decrypt_failure`, `check_replay` and
--   `bump_verify_failure`. The channel, the key and JSON encoding are not under the repository's
--   control: they are the operations of the record Backend, and the driver's section takes any such
--   record, with no law assumed. What the task sends out is the field `log`. The tokio channels and
--   timers are the list of inputs that `run` consumes: any order in which the select can take them is
--   a list, and `run` is by recursion on it, so no fuel is needed.
--   P2p/Verify is transport/verify.rs. A `str` is there the list of the bytes of its UTF-8 text.
--   Verify/Types has the data and the record Library of the base64 and Ed25519 operations, which the
--   handshake takes as a parameter, Verify/Transcript `build_transcript` and `canonical_ordering`,
--   Verify/Handshake `verify_handshake_response` and `build_handshake_response`, with the store of
--   keys and the signer as functions. Verify/Injective, Verify/Exchange and Verify/Authentic are about
--   them. Verify/Sdp is `extract_sdp_fingerprint`, on the list of the characters of an SDP; the handshake
--   takes the fingerprints as arguments. Verify/Fingerprint is about it.
--   P2p/Turn is turn.rs: the test of the scheme, the answer of the homeserver, which is an argument, and
--   the refresh loop on the list of what wakes it, so that no fuel is needed. P2p/Refresh is about it.
--   P2p/Tests, P2p/Verify/Tests, P2p/Verify/SdpTests and P2p/TurnTests have runs and concrete instances.
--
-- Events: crates/mxdx-types/src/events, the data that the parts exchange.
--
-- Coordinator: crates/mxdx-coordinator/src. `SystemTime::now()` is an argument, in seconds.
--   Coordinator/Router is `Router` of router.rs, Coordinator/Index is `CapabilityIndex` of index.rs
--   (its `remove` is `drop_worker`), Coordinator/Claim `ClaimTracker` of claim.rs, Coordinator/Watchlist
--   `Watchlist` of watchlist.rs, Coordinator/Failure `apply_policy` of failure.rs.
--   Coordinator/Entries and Coordinator/Routing are about the router, Coordinator/Indexed about the
--   index, Coordinator/Lookup about both, Coordinator/Alerts about the watchlist. Coordinator/Tests has
--   concrete instances.
--
-- Worker: crates/mxdx-worker/src.
--   Worker/Mux is `SessionMux` of session_mux.rs, with serde_json as the record Json of its parameters,
--   and Worker/Rooms is about it. Worker/Session is `SessionManager` of session.rs, with the handle of a
--   terminal as a parameter; `get_mut`, which hands a session out for any change, is not modelled.
--   Worker/Lifecycle is about it. Worker/Batch is the loop of `BatchedSender` of batched_sender.rs, with
--   the compression and the send function as parameters: what it receives is a list of data and ends of
--   windows, whose own end closes the channel, so that no fuel is needed. Worker/Batches is about it.
--   Worker/Executor has the checks of executor.rs, with the file system as the record Filesystem of two
--   tests and a `bail!` as a constructor, and Worker/Safe is about them. A text that is taken apart is
--   there the list of its characters (Prelude/Chars).
--   Worker/Tests and Worker/ExecutorTests have concrete instances.
--
-- Client: crates/mxdx-client/src.
--   Client/Tracker is `SessionTracker` of daemon/sessions.rs, with the lines that the broadcast channel
--   has been given as a field of the session; `subscribe`, which only hands a receiver out, is not
--   modelled. Client/Buffers and Client/Tracked are about it, and
--   Client/Tests has concrete instances.
--
-- Launcher: crates/mxdx-launcher/src. Launcher/RingBuffer is `EventRingBuffer` of
--   terminal/ring_buffer.rs, Launcher/Recent is about it. Launcher/Batcher is `OutputBatcher` of
--   terminal/batcher.rs, with what is said of it. Launcher/Executor has the checks of executor.rs and
--   `normalize_path`, which keeps its components with the last one first; Launcher/Paths and
--   Launcher/Permitted are about it. Launcher/Tests and Launcher/PathTests have concrete instances.
--
-- Homeservers: crates/mxdx-matrix/src/multi_hs.rs, without the connections themselves.
--   Homeservers/Pool has `MultiHsClient`, the selection of the preferred server, the circuit breakers
--   and failover; a latency is the bit pattern of its float, which orders as the float does, and an
--   instant is in nanoseconds. Homeservers/Collect has `is_duplicate`, `sync_and_collect_events` and
--   `find_launcher_space`, with the answers of the servers as a function of their index. All other calls
--   of the preferred server are `through_preferred` with the answer as an argument. Homeservers/Scan,
--   Homeservers/Failover, Homeservers/Breaker and Homeservers/History are about the breakers,
--   Homeservers/Seen, Homeservers/Recall and Homeservers/Deliver about the events that were seen.
--   Homeservers/Tests has concrete instances.
--
-- Policy: crates/mxdx-policy/src/policy.rs. Policy/Engine is `PolicyEngine`, with the cache of the library
--   lru as the record LruCache; Policy/Recency states what that library documents as the record Laws,
--   Policy/Replay and Policy/Once are about the engine, and Policy/Tests has a cache that fulfils the laws.
--
-- Trust: Trust/Keychain is the trait of crates/mxdx-types/src/identity.rs, its keychain in memory, and the
--   chain of keychain_chain.rs, with the contents of a keychain as a state; Trust/Store is
--   crates/mxdx-types/src/trust.rs, Trust/Device is trust.rs of crates/mxdx-worker/src and
--   crates/mxdx-client/src, which share their fields and `persist`, with serde_json as the record Codec.
--   Trust/Chain, Trust/Persisted and Trust/Manual are about them, and Trust/Tests has concrete instances.
--
-- Secrets: crates/mxdx-secrets/src. Secrets/Store is store.rs (its `get` is `find`), Secrets/Coordinator
--   is coordinator.rs, with age, base64 and serde_json as the record Library; the functions that only
--   call age stand in it. Secrets/Release is about them, and Secrets/Tests has a concrete library.
--
-- Not modelled: the calls of the Matrix SDK (the rest of crates/mxdx-matrix, crates/mxdx-core-wasm), of
-- WebRTC (crates/mxdx-p2p/src/channel), of tmux and of the operating system, the command lines and
-- their configuration, the web server, the deprecated crates/mxdx-fabric, and the JavaScript packages.
pub mod Prelude
pub mod P2p
pub mod Events
pub mod Coordinator
pub mod Worker
pub mod Client
pub mod Launcher
pub mod Homeservers
pub mod Policy
pub mod Trust
pub mod Secrets
