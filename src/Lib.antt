-- ===== src/Lib.antt =====
-- AgentVeil: a local privacy gateway between the Codex CLI and the OpenAI Responses API. A request
-- is parsed, its texts are scanned, the policy chooses an action for each finding, and the request
-- is blocked or rewritten before it leaves; a token ledger remembers which token stands for which
-- value, and restores it in the answers of synthetic modes.
--
-- The files and the parts of the program:
--   Prelude   lists, texts as UTF-8 bytes, results: what the other files share.
--   Domain    src/domain.rs: data classes, actions, detectors, findings.
--   Policy    src/policy.rs: `ValidatedPolicy::validate`, its rules and its checks.
--   Ledger    src/ledger.rs: `TokenLedger`; Entries holds the map, and the files below Ledger prove
--             the invariant, the round trip of a token, eviction, rollback and the token format.
--   Payload   src/payload.rs: Value is a JSON value, Target the errors, targets and small checks,
--             Controls the top-level controls, Strings the walks over all strings, Items and
--             Dispatch the input items, Request `ValidatedRequest`; Covers, Lens and Replace prove
--             that no text is left out and that a replacement changes one text.
--   Detector  src/detector.rs: Decode has the characters and the escapes, View `ScanView` and its
--             source maps, Compose the queue of decoded views, Matches the text functions, Rules
--             the detectors, Scan `Scanner::scan`, Patterns `Scanner::new`; Located, Normal, Rounds,
--             Composed and Scanned prove where findings lie and that the queue ends. The parent
--             module is `resolve_overlaps`; Overlaps proves what it covers, Sources where its
--             results come from.
--   Engine    src/engine.rs: Slice has slices at character boundaries, Plan the actions and the
--             summary, Apply the rewrites, Protect `protect` and `restore_display_text`; Purged,
--             Valid, Passed and Errors prove what a call does to the ledger and how it can fail.
--   Sse       src/sse.rs: Text the text functions, Event the fields that are restored, Frame the
--             frames and the transformer; Chunks proves that the cut into chunks does not matter,
--             Keeps and Display that only display text changes.
--   Audit     src/audit.rs: the audit event and its checks.
--   AuditSink src/audit_sink.rs: how the audit file is opened and written, over a file system that
--             is a parameter; Private proves what was seen of the file, Durable when a write
--             succeeds.
--   Gateway   src/gateway.rs: Headers the headers that are read and forwarded, Responses the handler
--             of `/v1/responses`; Egress proves what may be sent upstream, and after what.
--             Settings has the checks of `build_router` and what they ensure, Activity the list of
--             src/dashboard.rs and the wire proof, with what they keep, Board the pages of the
--             dashboard and who may read them. Upstream chooses the address and has the handler of
--             `/v1/models`, Fixed proves where a request may go; Relay is `relay_upstream`, which
--             runs the transformer of Sse over what arrives, and Streams proves what it yields.
--   Launcher  src/main.rs: Resolve the search for Codex and its preflight, Launch `launch_codex` as
--             a list of events; Resolved proves which file is found, Checked what the checks of the
--             arguments and of Codex ensure, Guarded what comes before Codex is spawned and what it
--             is given, Ends what comes after it.
--   Demo      src/demo.rs: the capturing upstream of the demonstration. Tokens reads the strings of a
--             request, Stream prints the answer, Fixture is the handler; Clear proves what a search
--             that finds nothing ensures, Reads, Standing, Places and Collected which tokens are
--             collected, Proof what the wire proof says of the requests.
--
-- A text is the list of its bytes. Numbers are natural numbers; a `u64` is kept in range by the
-- checked and saturating operations that the code calls. Loops are recursions on their lists or on
-- the attempts left, but for the loop over the frames of a buffer, bounded by its length, and the
-- loop of `trim_start`, bounded by the text; lemmas show that the bounds are enough.
-- Parameters: `serde_yaml`, `serde_json` and `blake3` in Policy, the random source in Ledger, the
-- tokenizer of `serde_json::from_slice` in Payload. A JSON number is kept as its text. A collector
-- that pushes targets returns the list of them. In Detector the matches of regular expressions, NFKC
-- and `char::is_alphanumeric` are parameters; the queue of views takes seven rounds, and a lemma shows
-- that they suffice. The scanner is a parameter of Engine, so its theorems hold of any; the closure
-- and `serde_json` are parameters of Sse; the file system and paths are parameters of AuditSink;
-- the engine, the audit file, the HTTP client, URLs and the clock are parameters of Gateway, and
-- `responses` takes the choice of the address, which Fixed fills with `upstream_url`. Processes, the
-- environment and the random source are parameters of Launcher; blake3 and `serde_json` of Demo.
-- Not modelled: I/O and what is printed, serialisation by derive, the parsing of the command line,
-- the parts of `build_router` after its checks, the sockets of `serve`, and the runs of the
-- demonstrations with their checks of the answers, which are sequences of network calls.
pub mod Prelude
pub mod Domain
pub mod Policy
pub mod Ledger
pub mod Payload
pub mod Detector
pub mod Sse
pub mod Engine
pub mod Audit
pub mod Gateway
pub mod AuditSink
pub mod Launcher
pub mod Demo
