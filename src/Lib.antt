-- ===== src/Lib.antt =====
-- TabGrant lets a local agent use a browser tab that its user has granted. This library models the parts
-- of it that decide what an agent may do, and proves what they promise.
--
-- The program. An agent asks the broker for access (`access.request`), the user grants a tab and some
-- scopes in the browser extension (`access.grant`), and the broker issues a signed capability and makes a
-- lease. Each browser command of the agent is checked against its lease and, where it has an action of the
-- protocol, by the policy engine; the broker counts it and sends it to the browser, and its answer back.
-- A lease ends by time, idleness, use, revocation, or when the agent or the browser goes away.
--
-- Files.
-- - Common: library names, Boolean tests on numbers and texts, list functions.
-- - Protocol: packages/protocol/src. Text (identifiers, digests), Primitives (origins, URLs, scopes),
--   Actions (actions, element references, approval receipts), Access (capabilities, leases), Decision
--   (error codes, decisions), Order (the order of texts that sorting uses). Platform holds what the
--   JavaScript platform and node:crypto supply, as a record of functions that every definition takes:
--   `new URL`, NFC, JSON quoting, SHA-256, HMAC, the text of a number. Nothing is assumed of them.
-- - Policy: packages/policy/src. Canonicalize (canonicalize.ts), Request (the request, the tables and the
--   decisions), Grant (`contextMismatch`, `validateGrant`), Scopes (scopes, references, data classes),
--   Approval (`validateApproval`), Engine (`evaluatePolicy`, `assertAuthorized`;
--   `evaluate_policy` is what the former returns where it returns, `evaluate_policy_or_throw` all of it).
--   Permits says what the engine promises without its tests; GrantLaws, ScopeLaws, ApprovalLaws, ParseLaws
--   and EngineLaws connect the two.
-- - Broker: apps/broker/src. Constants (constants.ts), Capability (capability.ts), and broker-state.ts:
--   Records (the state and the sequencing of its operations), Lifecycle (how leases and requests end),
--   Requests, Grants, Commands, and Dispatch (`handle`). Run is the history of a broker as a step
--   relation. Inversion, Access, Authority, Consent, Delivery, Endings, Revocation, Departure and Signature
--   are about results; Bounds is the invariant of the counters, with one module for each group of operations.
-- - Wire: Stream (what the two decoders share) and Chunks (input in pieces); Native and NativeLaws for
--   apps/broker/src/native-framing.ts; Lines and LineLaws for the line decoder of apps/broker/src/wire.ts;
--   Peer, Once, Soundness and PeerLaws for its envelopes and `RpcPeer`.
-- - Auth: apps/broker/src/auth.ts. Hello and HelloLaws (`createAuthHello`, `verifyAuthHello`), Replay (the used
--   nonces, with the timer of apps/broker/src/daemon.ts), Browser and BrowserLaws (keys, pairing, challenges).
-- - Daemon: apps/broker/src/daemon.ts. Attempts (the limits of pairing attempts), Link (the state of the daemon
--   and of a connection, `session.hello`), Browser (the browser's authentication, cut at its awaits, and the
--   dispatch of requests), System (all connections and the broker's state as a step relation). Witnesses, Moves,
--   Completion and Backing are about what stands behind a browser's role; Order, Turns, Requests and Prompts about
--   prompts and attempts.
-- - Audit: apps/broker/src/audit.ts. Record (a record, its text and signature), Segment (the file of a segment and
--   `record` on it), LineLaws, SegmentLaws and ChainLaws.
-- - KillSwitch, with FailClosed: apps/broker/src/kill-switch.ts.
-- - Extension: Security, SecurityLaws and Loopback for apps/extension/src/security.ts; Security also has
--   apps/extension/src/popup-status.ts.
-- - Tests, and the module of that name in Wire, Auth, Daemon, Audit, Extension and
--   KillSwitch: runs of the model, and the theorems at them.
--
-- How the broker's state is modelled. A method is a function from a state to a state and a result; an
-- exception leaves the state as it was when it was thrown. A Map is the list of its values in insertion
-- order. A lease that was evicted from its map stays in `detached`, since a running command may hold the
-- object. A context is a number, under which its session, its browser and its rate window are kept. The
-- clock is an argument of each operation, and may go backward between operations. Fresh UUIDs and the
-- success of each audit write are arguments too. A command is cut at its request to the browser and
-- at the audit record that ends it (`begin_command`, `answer_command`, then `record_command` or `fail_command`),
-- and anything may happen in between; other audit writes are taken to be over before anything else happens.
-- A lease also keeps `reserved_bytes`, the bytes that its running commands hold on their stacks.
-- Numbers are natural: times and counters of the program are never negative, and where the source
-- subtracts, the model has compared before.
--
-- How messages and connections are modelled. JSON's `stringify` and `parse` are parameters over a type of
-- values, and bytes are numbers. A decoder's loop runs on fuel, the length of its buffer, which is enough since
-- each turn takes bytes off (`IsFraming` in Wire.Stream); no other function has fuel. A handler that awaits is cut
-- there: what it holds on its stack is a state of its connection, and what comes back is an argument of the
-- rest. Answers from outside (a found pairing, an approval, a right signature) are kept in a log.
--
-- Not modelled: the texts of the broker's error messages, apart from those of its wire and
-- its daemon; lone surrogates in texts; strictness against unknown
-- properties, which is part of a value not having the shape of its schema; numbers with a fraction in form
-- fields; sockets, servers and signals; the files of secrets and of the pairing, whose contents alone are
-- modelled; the approval dialogs; the rotation, expiry and manifest of the audit log; the
-- installer, the command line and the rest of the browser extension.
pub mod Common
pub mod Protocol
pub mod Policy
pub mod Broker
pub mod Wire
pub mod Auth
pub mod Daemon
pub mod Audit
pub mod Extension
pub mod KillSwitch
pub mod Tests
