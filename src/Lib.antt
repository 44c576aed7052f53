-- ===== src/Lib.antt =====
-- A model of the guardrails between a trading agent and the exchanges and chains that it acts on.
--
-- The program. An agent proposes an intent (packages/schemas). The guardrail service decides on it,
-- from a policy, a review by another model, and the checks of the risk engine
-- (packages/risk-engine), and signs its decision. The execution broker (packages/broker) takes the
-- signed decision, tests it, holds the idempotency key of the intent, reads the kill switch, asks the
-- connector to look at the intent again, uses up a human approval (packages/approval), and only then
-- calls the connector; it writes what it does to the audit log (packages/audit).
--
-- The files.
--   Base, Js: shared names, and the parts of JavaScript that the source uses. `JsNumber` is the
--     interface of its numbers; `Js/Laws` has the laws of IEEE comparison, and `Js/Grid` a concrete
--     instance with whole numbers and NaN, for tests.
--   Schemas: packages/schemas/src, the data that is exchanged, and its JSON text. A value of
--     `TradingIntent` is one that the zod schema accepted.
--   Risk: packages/risk-engine/src. `Checks/*` are the functions of checks.ts, `Engine` is
--     `RiskEngine` of engine.ts: `gather` asks the provider, `assess` is the rest, `evaluate` the
--     whole. `Acceptable` says without the code what an acceptable order is; `Proofs` compares.
--   Approval: packages/approval/src. `Types` has the requests for human approval of interfaces.ts,
--     `Store` the transitions of `ApprovalStore` in store.ts over the table of its requests,
--     `Waiting` is `waitForApproval`, `Timeouts` has `checkTimeouts` and `delete`, and `Onboarding` is
--     `approve` with the allowlist of allowlist-store.ts and its rollbacks.
--   Audit: packages/audit/src. `Types` has the rows of schema.ts, `Redact` is `redactObject`, `Chain`
--     the hash of a row and `recoverLastHash`, `Writer` is `AuditWriter.write` and `checkHealth` of
--     writer.ts, `Startup` its constructor and the sealing of legacy rows. `Proofs/Sealed` says
--     without the code what a chain of rows is; `Proofs/*` compare.
--   Guardrail: packages/guardrail-service/src. `Evaluate` is `GuardrailService.evaluate` of
--     service.ts in the stages of the code and `Finish` the methods that it ends with, `Facts` the
--     facts for the policy engine, `Amounts` the amounts of token approvals, `Unsafe` the tests of
--     the content, `Opa` is opa-transform.ts, `Idempotency` is idempotency.ts with its promises,
--     `Startup` the constructor. `Host` is what the service is constructed with, `World` its state.
--     `Proofs/Handover` joins service and broker.
--   Broker: packages/broker/src. `Idempotency` is `InMemoryBrokerIdempotencyStore`, and
--     `Idempotency/Life` says without the store what a reservation promises. `FileStore` is
--     `FileBrokerIdempotencyStore` for several processes on one file, whose data are in `FileTypes`,
--     `FileStore/Cached` compares what it finds with the intent, `FileStore/Encode` and
--     `FileStore/Parse` are the JSON values that it writes and reads. `KillSwitch` is
--     `InMemoryKillSwitch`, `Preflight` is preflight.ts, `DryRun` is dry-run.ts, `Decision` has the
--     guards on the signed decision, `Keys` the keys, hashes and event ids. `Execute` is
--     `ExecutionBroker.execute` of broker.ts: `Stages` and `Connector` its stages in the order of
--     the code, `Run` what the holder of a reservation does, `Admit` the whole. `Rehearsal` is
--     `ExecutionBroker.dryRun`. `Host` is what the broker is constructed with, and `World` the state
--     that an action changes.
--
-- State and errors. An action of the broker is a function of a `World`: the state of the
-- collaborators, the idempotency store, and the trace of the calls that were made. A collaborator
-- may answer anything, change its own state and throw. A thrown error is the outcome `threw`, and
-- `on_throw` is a `catch` that rethrows. The promises of the store are cells that are settled once.
-- An `execute` runs without interruption by another one; what other holders of keys do to the store
-- between its calls is the subject of the theorems on sequences of calls of the store. The guardrail
-- service has a `World` of the same kind, with the decisions of its store; two calls of `evaluate`
-- are not interleaved, and a call that finds a promise of another one ends there. The audit writer is
-- a function of its state; how the database and the anchor's file behave is an argument of a call, and
-- so is the end of a locked change of the file store.
--
-- Termination. Every function is by structural recursion, but for `wait_for_approval`: its fuel is the
-- number of polls, and one more than the number of the first poll after the deadline is enough.
--
-- What is not modelled. The digests of node:crypto, the parsing of dates, the order of localeCompare,
-- `redactSecrets` (a series of regular expressions of writer.ts), the text of zod's errors, the
-- validators of zod, the policy engine, the reviewer and the parsing of Solana instructions are
-- parameters: fields of `Host` and of `GuardrailHost`, or arguments. The broker's `revalidate`,
-- connector and kill switch, and the approvals that the service creates and deletes, are too.
-- Texts are sequences of code points. The broker runs over the in-memory store. The texts of the
-- rows of the approval store, the migrations of the audit database, and the connectors are left out;
-- servers, command lines, prompts and start-up code are input and output. That somebody else changes
-- or deletes the file of the broker's entries is no outcome of a call. The clock is read for an answer
-- of the policy engine that lacks `evaluatedAt`, also where the answer is malformed otherwise.
pub mod Base
pub mod Js
pub mod Schemas
pub mod Risk
pub mod Approval
pub mod Audit
pub mod Broker
pub mod Guardrail
