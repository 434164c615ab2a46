-- ===== src/Lib.antt =====
-- Verification of Ogra's core services: the decisions of where a run may execute, and the durable
-- runtime that records what it does. Paths below are from the repository's root.
--
-- The program. Ogra is a desktop application whose core (ogra-desktop/src/core) decides for every
-- run of an agent where it executes, and keeps runs, effects and their audit trail in SQLite.
-- `RouteService` asks `PolicyService` for an evaluation and `HighWaterMarkService` for the
-- classification of the context, and files the decision. `DurableRuntimeService` writes every
-- change of a frame, an effect or a lease in one transaction with one audit event
-- (`transactionalAppend`), and the events of a run form a hash chain (audit-envelope.ts) that
-- `verifyAuditChain` walks. `ProgressGuard` counts a run's actions through the same transactions.
-- `EffectProtocolService` takes an effect through them from its preparation to its commit: it seals
-- the callback and the result in `EncryptedCapsuleStore`, sends only under a live lease and a
-- consumed approval, and commits only on an authoritative receipt. `RecoveryApprovalService` mints
-- the approval that a retry of an effect consumes.
--
-- The files.
--   Prelude: names of the libraries; Boolean tests; lists; tables as lists of rows (`select`,
--     `insert_row`, `update_where`, `exists_row`) with their laws.
--   Governance/Classification: `DataClassification` of ogra-desktop/src/shared/types.ts.
--   Governance/HighWater: high-water-mark.ts; its child Bounds has the laws.
--   Governance/Policy: policy-service.ts. Types and Registry hold its data and rules, Gates the
--     sections of `evaluate` before the tiers, Evaluate the tiers and the whole method, Flow the
--     early return. Cleared, Network, Egress, Outcome and Overrides have the laws.
--   Governance/Route: route-service.ts; Decisions and Store have the laws.
--   Audit/Json, Audit/Event: `canonicalJSON`, `envelopeV1Hash`, `envelopeV2Hash` and `payloadHash`
--     of audit-envelope.ts; Audit/Canonical has the lemmas on the order of keys.
--   Audit/Chain: the row that `transactionalAppend` writes, and `verifyAuditChain`
--     (durable-runtime-service.ts); Order, Roundtrip and Tamper have the laws.
--   Audit/Log: the interface through which the runtime uses the audit trail, filled by the chain.
--   Durable/Transaction: the monad of code in a transaction, the error codes of
--     ogra-desktop/src/shared/errors.ts, and `transactionalAppend`.
--   Durable/Lease: `acquireLease`, `renewLease`, `releaseLease`, `readLease`, `leaseExpired`;
--     Exclusion and Fencing have the laws.
--   Durable/Frame: `RunFrame` and `FRAME_TRANSITIONS` (durable-runtime-types.ts); Operations has
--     `createRootFrame`, `createChildFrame`, `transitionFrame` and `isInSubtree`; Lifecycle, Final
--     and Tree have the laws.
--   Durable/Effect: the effect ledger's tables and `EFFECT_TRANSITIONS`; Plan has `planEffect`,
--     Transition `transitionEffect` and `assertEffectInSubtree`, Receipt `appendReceipt`,
--     `readReceipt` and `recordApprovalBinding`; Ledger, Attempts, Keys, Writers, Closed
--     and Awaiting have the laws.
--   Durable/Repair: the repeated-effect test, the actions allowed in a state and the dependency
--     test of `verifyRepairInvariants`; Order has the law.
--   Durable/Edges: `verifyAuditEdgesForRun` and `rebuildAuditEdgesForRun`; Drafts, Append and
--     Rebuild have the laws.
--   Guard: progress-guard.ts. State has the configuration and the snapshot, Input the tests of the
--     input with the pattern of action targets, Window the reads of the ledger, Observe the method;
--     Budgets, Recovery, Termination, Ledger and Query have the laws.
--   Capsule: capsule-store.ts. Its types, tables and incident log; Seal has `seal`, Open the ways to
--     open a capsule, Evidence the checks of receipts, callbacks and capabilities. Inversion, Stored,
--     Roundtrip, Authentic and Incidents have the lemmas and laws.
--   Protocol: effect-protocol-service.ts. Its tables and shared steps; Prepare has `prepare`, Consume
--     `consumeApprovalForCallback`, Cas and Cas/Method `casToInFlight`, Receipt `recordReceipt`,
--     Outcome `recordUnknownOutcome` and `cancelBeforeSend`, Commit and Commit/Method
--     `commitToTerminal`, Reads the reads of capsules. Quiet, Lifecycle, Limits and Inversion have
--     rules for code in its transactions; History, Approvals and Gates have the laws.
--   Recovery: recovery-approval-service.ts; Body has the steps of a mint, Commutes rules for code that
--     does not read a revocation; Minting, Once and Unread have the laws.
--   Modules named Tests (also FrameTests, EffectTests, RepairTests and EdgesTests) hold concrete runs.
--
-- How the code is modelled.
--   A SQLite table is the list of its rows, oldest first. `SELECT … WHERE` is the first row,
--   `INSERT` adds at the end, `UPDATE … WHERE` maps over the rows, and a constraint (`PRIMARY KEY`,
--   `UNIQUE`, `CHECK`) that an operation can violate is a test that ends in the error that the code
--   reports, or in `database_error` where it reports none. Foreign keys to tables that are not
--   modelled are taken to hold.
--   The body of a transaction maps tables to a result with tables, or to an error. A method that
--   reads or throws before its transaction does so outside it, on the same tables. That an error
--   leaves nothing is the rollback of SQLite, which the model takes as given. `agent_runs`, which the
--   leases read, is an argument of theirs.
--   The rows of `progress_ledger` and of the incidents of capsules have new random ids, so their
--   insertion does not fail; the `try` around an incident's insertion is left out for that reason.
--   Keys are sorted by code points; the sort of JavaScript goes by UTF-16 units, which differs only
--   for keys with characters beyond U+FFFF. The time of an observation is a number, so a text that
--   `Date` cannot read is not an input.
--   The clock, random ids and the current policy and redaction versions are arguments. A time is a
--   number of milliseconds and is read once in each call; where the code reads it twice, both
--   readings are that one. A difference of times that would be negative is 0, which no test tells
--   from a negative one.
--   A missing optional field is `none`. Message texts are constructors with the values that the
--   text prints. Counters and revisions are natural numbers; they stay far below 2^53, where a
--   JavaScript number is exact.
--   SHA-256, `JSON.stringify` and `JSON.parse` are a record of parameters (Audit/Event). What a
--   theorem needs of them, it assumes by name: that parsing undoes printing on a payload, or that
--   two envelopes do not collide.
--   The capsule store takes the cipher, the key derivation, the hash of bytes and the printing of
--   times as a record of parameters (`Vault`), and a `Buffer` is a list of bytes. What a theorem needs
--   of the cipher it assumes by name: that it decrypts what it has encrypted, or only that.
--   `prepare` inserts the effect and fills in its capsule columns later in one transaction; both are
--   one write here. A method that writes incidents before it throws returns the tables with the error.
--   In a history of the protocol, other services write what they like but the effects, and keep the
--   limits of approvals.
--   The loop of `isInSubtree` runs on fuel; one round more than the frame's path is long is enough
--   in a forest. The other loops are structural.
--
-- Not modelled: the rest of repairs, the rest of recovery (recovery-service.ts,
-- recovery-condition-checker.ts), ingress review, the capability gateway and tools, redaction and injection detection (regular expressions
-- over text), the secret broker, services that only read and write tables, adapters and bridges
-- (network and models), and the user interface.
pub mod Prelude
pub mod Governance
pub mod Audit
pub mod Durable
pub mod Guard
pub mod Capsule
pub mod Protocol
pub mod Recovery
