-- ===== src/Lib.antt =====
-- Cresix: a verification library for the protocol and decision core of the control plane.
--
-- The program. A Cresix server (crates/c6-server) keeps projects, runs and schedules. It asks a
-- runner (crates/c6-runner) over a local socket to execute runs, decides with
-- crates/c6-scheduler which occurrences of a schedule to enqueue, and decides with
-- crates/c6-core who may do what. Project sources are in git repositories (crates/c6-git). An
-- installation reaches Cresix Cloud (crates/c6-cloud) through a connector that holds a relay
-- session (crates/c6-cloud-core), on which requests and response bodies are multiplexed.
--
-- The library.
--   Base: lists, Boolean tests, `Result` with the `?` operator as a bind, UTF-8 byte texts,
--     association lists for `HashMap`, signed integers, and names that a loop tests against
--     those it has seen.
--   CloudCore.Token: crates/c6-cloud-core/src/token.rs (`ParsedToken::parse` is `parse`), and
--     `issue_token` of crates/c6-cloud/src/lib.rs in CloudCore.Token.Issue.
--   CloudCore.Identifiers: crates/c6-cloud-core/src/identifiers.rs.
--   CloudCore.Relay: crates/c6-cloud-core/src/relay.rs. Headers and Frames hold the frames and
--     their validation, Body the binary codec, Session `RelaySessionState`, where
--     `observe_control` has one definition per arm. An operation that takes `&mut self` returns
--     the new state with its result, so that what a refused frame has written is seen. The
--     other modules are proofs: Invariant, Transitions, Reuse, Refusals, Streams, Codec and
--     HeaderLimits.
--   Core: crates/c6-core/src/permissions.rs, the credential types of
--     crates/c6-core/src/model.rs, and crates/c6-core/src/manifest.rs in Core.Manifest (Parts
--     and Validate are the program, Paths, Accepts and Whole say what it accepts).
--   Scheduler: crates/c6-scheduler/src/lib.rs. The cron and time zone packages are the
--     interface `Calendar`, with the documented law that the next occurrence is the least later
--     one.
--   Git: crates/c6-git/src/lib.rs. The checks on what a caller asks to write are in Git; Changes is
--     `validate_changes`, and ChangeLimits says what it accepts. Commands has the operations of
--     `Repository`, each a sequence of runs of git with the history of its calls: Write is
--     `commit_changes` and `merge`, Reading what reads, Tree the parsers of git's output; Quiet,
--     Questions, Moves and Steps are rules for such sequences, Merges and Commits say which branches
--     move. Store has `GitStore` and `StagedDeletion`, Guard and Deletion say where a repository is
--     meanwhile.
--     SmartHttp is crates/c6-git/src/smart_http.rs (Backend makes a `SmartHttpBackend`, Serve has
--     its operations, where what the child does is a parameter; Accepted and Whole are about the
--     responses that are served).
--   Runner: crates/c6-runner/src/lib.rs. Request is `ExecutionRequest::validate` (Limits and
--     Addresses say what it accepts), Authenticator is `SignedEnvelope` and `Authenticator`
--     (Acceptance, Signing, Replay), Logs is `capture_log`, Framing is `read_frame`
--     (FrameLaws), Service is `RunnerService` (Handle, Idempotence), and Interleaving runs its
--     calls in steps from one `await` to the next, in any order (Overlap). Settled, SentAgain and
--     Handled put the authenticator and the service together.
--
--   Tunnel: one proxied HTTP request, over the session states of CloudCore.Relay. Exchange is
--     `execute_exchange` of crates/c6-cloud/src/lib.rs; Connector is the loop of `run_session` of
--     crates/c6-connector/src/runtime.rs, where `turn` is a round of its `select!`, over the state
--     and the results of a round in Turns; Reconnect is its handshake and `run_reconnecting`;
--     Proxy is crates/c6-connector/src/proxy.rs; Chunks and Sending are what both ends share. The
--     other modules are proofs: Gathering, Requests and Responses take the messages of a request
--     and of a response through both ends, RoundTrip composes them, Accepts, Rounds, Steady, Loop
--     and Runs show when the loop goes on, Opening is about the handshake, and Lifetime has the
--     sessions in a row. Samples has the values that the tests share.
--   Server: the access checks of crates/c6-server/src/main.rs. Tables has the rows of the
--     database that they read and the conditions of their queries, Headers the request headers,
--     Authenticate `authenticate`, `authenticate_bearer`, `authenticate_git` and `same_origin`,
--     Access roles, project access and the checks on names. Granted and GitAccess say what these
--     have seen when they let a caller in, and SecureEq is about `secure_eq`.
--   Cli: the store of credentials of the command line, crates/c6-cli/src/credential.rs
--     (Credential), and the files of crates/c6-cli/src/config.rs that hold it (StateFile). Atomic
--     says what a write leaves at its path, Progress when it succeeds, and Stored what is found in
--     the store after calls and a save. Memory has the JSON format and the files that the tests
--     run on.
--
-- Conventions. Texts are lists of bytes; numbers are natural numbers with the widths and the
-- saturation of the source written out; times that can be negative are signed. Maps and sets
-- are association lists and lists, since no result depends on the order of a `HashMap` or of a
-- `BTreeMap`. Every loop is structural recursion on its input, and the one fuel is that of
-- `chunks`, the length of the slice, which is proved enough: `read_frame` recurses on the reads of
-- the socket, `capture_log` on the place that it walks down from, `read_bounded` on the reads of
-- the pipe.
--
-- Packages. base64, HMAC-SHA256, JSON decoding, the printed forms of UUIDs and integers,
-- random bytes, TOML, cron, time zones, WebSockets, URLs, the HTTP client, the git child
-- processes, the file systems around it and the credentials, the result store and the backend are
-- parameters. A law that a theorem needs of them is among its hypotheses or in their interface,
-- and the Tests modules instantiate each.
--
-- Not modelled: serialization and logging, the file store and key files of the runner, the HTTP
-- and SQL handlers of the server and of the cloud service behind their access checks, the types of
-- the API, the connector's upgrade request and configuration files, the loop in which the git
-- backend waits for its child (only how it ends is modelled), the commands of the command line and
-- the web applications. The text of the runner's refusal messages is left out; their codes are
-- modelled.
pub mod Base
pub mod CloudCore
pub mod Core
pub mod Scheduler
pub mod Runner
pub mod Git
pub mod Tunnel
pub mod Server
pub mod Cli
