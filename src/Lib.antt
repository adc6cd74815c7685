-- ===== src/Lib.antt =====
-- VulnSeal: a coordinated vulnerability disclosure workflow. A researcher seals a report, a
-- vendor triages, judges and patches it, the researcher retests, the vendor authorizes a payout,
-- and a public ledger records each step.
--
-- Parts and files:
--
-- contract/src/vulnseal.compact, contract/src/witnesses.ts: Contract.antt. Contract/Types.antt
-- has the ledger, a record whose maps are association lists, and `Hash`, the interface of
-- Compact's persistentHash, which every definition that hashes takes as a parameter.
-- Contract/Witnesses.antt has the private state and the witnesses. Contract/Circuits.antt has
-- one function per circuit: from the caller's private state and the ledger to the new ledger or
-- the assertion that failed. `Uint<64>` is a natural number below 2 ^ 64, and the cast that
-- moves the sequence number fails above. Contract/Calls.antt states the abstract life of a
-- report, as edges between records, and the ledgers that any sequence of transactions reaches.
-- Contract/Refinement.antt relates the circuits to it; Contract/Invariant.antt,
-- Contract/History.antt and Contract/Authority.antt are about every history,
-- Contract/Progress.antt and Contract/Lifecycle.antt about when the circuits succeed.
--
-- packages/shared/src/encoding.ts: Shared/Hex.antt and Shared/Base64.antt, on texts as lists of
-- UTF-16 code units; their RoundTrip modules are about both ways together.
-- packages/shared/src/canonicalize.ts: Shared/Json.antt has the JSON values,
-- Shared/Canonical.antt `normalize`, with the order in which a JavaScript object keeps its keys,
-- and Shared/Report.antt `canonicalizeReport`, from any JSON value.
-- packages/shared/src/crypto.ts: Shared/Envelope.antt and Shared/Crypto.antt, over a record of
-- what the platform does, Web Crypto among it. packages/shared/src/redaction.ts:
-- Shared/Redaction.antt, over a heap, since a logged value may refer to itself.
-- packages/shared/src/state.ts and environment.ts: Shared/State.antt and
-- Shared/Environment.antt.
--
-- api/src/cipherstore-client.ts: Api/CipherstoreClient.antt, the clients of one store and of
-- several; `fetch` is a parameter that also tells whether the deadline had passed.
-- api/src/contract-history.ts: Api/ContractHistory.antt, the scan as a state and handlers that
-- take the socket's messages, the timer and the clock as events in any order.
--
-- api/src/api.ts: Api/VulnSealApi.antt, the evidence of a transaction and the calls of the
-- contract; withPrivateState is a step relation on the callers of a provider, of which
-- Api/VulnSealApi/Queue.antt is about the invariant; Api/VulnSealApi/PublicState.antt is
-- readPublicState with its clocks. Outside that queue, and not modelled, are usePrivateState
-- called by itself, deploying, and logging.
--
-- api/src/role-session.ts: Api/RoleSession.antt, a session of one actor, from the arguments of a
-- command and the public ledger to the private state that it installs and the contract call that
-- it makes, or to the check that failed. Api/RoleSession/Accepted.antt is about what the
-- contract makes of its calls. Api/RoleSession/Joining.antt has attach, join and
-- readPublicState, over any reading of a public state.
--
-- api/src/program-policy.ts: Api/ProgramPolicy.antt, the validation of a policy, the inputs of a
-- constructor and the comparison with an observed program.
--
-- cipherstore/src/storage.ts: Cipherstore/Storage.antt, the interface of a blob storage with its
-- promises as laws. cipherstore/src/sqlite-worker.ts: Cipherstore/Sqlite.antt implements it,
-- over a database interface that has SQLite's documented behaviour; its Promises module is about
-- the laws and the quota. cipherstore/src/server.ts: Cipherstore/Envelope.antt and
-- Cipherstore/Upload.antt have the checks of an upload, Cipherstore/Server.antt the request
-- handler over any storage, and its child modules what requests do to the blobs and what the
-- answers tell. SHA-256, the UTF-8 decoder and JSON.parse are parameters.
-- Cipherstore/Metrics.antt has the counters of requests, as events in any order; left out are
-- the text of the metrics, the limits of the sockets, that readiness checks in progress are
-- shared, and what happens between two awaits of one request: requests run one after the other.
-- cipherstore/src/capacity.ts: Cipherstore/Capacity.antt. cipherstore/src/filesystem-storage.ts:
-- Cipherstore/Filesystem.antt implements the interface in a directory, over a file system any
-- call of which may fail, with work done or not. cipherstore/src/retirement-policy.ts:
-- Cipherstore/Retirement.antt, and its Reading module for the file.
-- cipherstore/src/sqlite-storage.ts: Cipherstore/Client.antt, the matching of the worker's
-- replies to requests, as steps in any order. cipherstore/src/backup.ts and
-- cipherstore/src/restore-state.ts: Cipherstore/Backup.antt, the verification of a backup and
-- its restoration to files; making a backup and restoring to SQLite are left out.
-- cipherstore/src/directory-lease.ts: Cipherstore/Lease.antt, a step relation on the processes
-- that use a directory.
--
-- web/src/submission-wait.ts: Web/SubmissionWait.antt, the wait for a submission as handlers of
-- events in any order. web/src/report-journal.ts: Web/ReportJournal.antt. web/src/workflow.ts,
-- and the transitions that web/src/recovery.ts allows: Web/Workflow.antt.
-- web/src/patch-comparison.ts and web/src/submission-receipt.ts: Web/Commitments.antt.
--
-- Loops go over the lists that they read. Only the redaction of a log value runs on fuel, since
-- the value may have cycles: one more than the objects of the heap is enough.
--
-- Not modelled are the rest of api/src (public verification, bounded reads of JSON, the content
-- of transactions), cipherstore/src/retire.ts, and in web/src the storage and the validation of
-- recoveries and handoffs. The components of web/src, the scripts, the end-to-end tests, and
-- what the platform provides are left out for good.
pub mod Prelude
pub mod Contract
pub mod Api
pub mod Cipherstore
pub mod Shared
pub mod Web
