-- ===== src/Lib.antt =====
-- Verification of lawyer-agent's backend: the durable AI jobs, their idempotency keys, the
-- authorization policies and parts of the legal corpus.
--
-- The backend (backend/src/lawyer_agent) serves several tenants. A member of a tenant submits an AI
-- job under an idempotency key; one transaction reserves the key, writes the job, the grant under
-- which it may run and a message in the outbox, and completes the key with the job. A publisher
-- claims outbox rows in batches and sends them to the broker. A worker receives a message, keeps an
-- inbox against redeliveries, loads the authority of the job anew, asks the durable grant policy,
-- and claims the job under a lease. Every statement of the store is fenced by a WHERE on the lease
-- and the version. Requests of users pass the policy engine of the tenancy.
--
-- Prelude: Boolean tests, lists, results and texts over the native numbers.
-- Common: backend/src/lawyer_agent/domain/common.py. A UUID is its 128-bit number, a datetime a
--   zone and microseconds. Common/Bits and Common/Uuid7 hold the arithmetic of `new_uuid7`.
-- Tenancy: backend/src/lawyer_agent/domain/tenancy.py, the records and the checks of their
--   `__post_init__`.
-- AiJobs: backend/src/lawyer_agent/domain/ai_jobs.py and
--   backend/src/lawyer_agent/application/ai_jobs.py. Status and Lifecycle: the statuses, their
--   transitions and the walks along them. Timing: retry delays, leases, lifetimes. Scope and
--   Scopes: which jobs a role reaches. Records, Requests and Validity: the dataclasses and their
--   checks. Policy and Grants: `DurableGrantPolicy.authorize`.
-- Authz: backend/src/lawyer_agent/domain/authorization.py. Request: actions, principals, contexts
--   and resources. Reasons: the checks. Policy: `PolicyEngine.decide`. Permits and Decisions: what
--   it permits.
-- Idempotency: backend/src/lawyer_agent/application/idempotency.py on the table of
--   backend/src/lawyer_agent/infrastructure/persistence/repositories/idempotency.py. Payload,
--   Canonical, Routes: what of a request its fingerprint reads. Table, Repository: the rows, their
--   unique constraints and the guarded updates. Service: prepare, reserve, complete, fail. Keys: the
--   abstract life of one key, a state machine. Sound: what a table keeps, and sequences of calls.
--   Slots, Decoding, Acquiring, Outcomes, Reserving, Settling, Views, Claimed, Refinement, Invariant:
--   the table against that machine. Guarantees, Firsts, Once, Held, Recovery, Secrets: what a client
--   may rely on.
-- JobStore: backend/src/lawyer_agent/infrastructure/persistence/repositories/ai_jobs.py on the
--   tables of backend/src/lawyer_agent/infrastructure/persistence/models/ai_jobs.py. Tables:
--   SELECT by key and UPDATE ... WHERE with its row count. Rows: the rows, their conversion, the
--   CHECK constraints. Lookup: SELECT by a condition. Claiming, Jobs: the statements on the jobs.
--   Ops, Steps, Commits, History: calls one after the other. Fencing and Exclusion: leases.
--   Messages, Outbox, Settlements, Settling, Superseding: the transactional outbox. Inbox: the
--   deduplication of messages. Publishing, Holding, Turns and Batches:
--   `OutboxPublisherService.publish_batch` of
--   backend/src/lawyer_agent/application/ai_job_runtime.py.
-- Worker: `AIJobWorkerService.accept_delivery` of
--   backend/src/lawyer_agent/application/ai_job_runtime.py, over the inbox and the job tables.
--   Record, Deliveries: redeliveries. Claims, Attempts: which deliveries start an attempt.
-- JobService: backend/src/lawyer_agent/application/ai_job_service.py, over Idempotency and
--   JobStore. Roles, Permissions, Store: the joins over roles, and the rows of a new job.
--   Commands, Graphs, Creating: `AIJobService`. Created, Replays, Reading, Submitted: a submission
--   and what it leaves. Authority: `SqlAlchemyAIJobAuthorityLoader.load`, which Granted puts under
--   the worker.
-- Chunks: backend/src/lawyer_agent/application/legal_chunk_structure.py, the windows over a long
--   unit of text; the loop is on fuel, one more than the text has characters.
-- SourceDiff: backend/src/lawyer_agent/application/legal_source_diff.py, the comparison of two parsed
--   source files. Entries, Indexed: the entries under their numbers. Placed, Changed: what a diff says.
--   Accepted: which files can be compared.
-- Bulk: backend/src/lawyer_agent/infrastructure/search/bounded_bulk.py, which cuts a batch of documents
--   for the search index into requests. Requests: what they carry.
-- Evidence: backend/src/lawyer_agent/application/evidence.py and
--   backend/src/lawyer_agent/application/legal_claim_gate.py. Citations: items, bundles and the
--   citation gate. Claims: the claim gate. Support and Publication: what they allow.
-- Reviews: backend/src/lawyer_agent/domain/document_review.py, the review of a document version; its
--   histories are lists of decisions, the latest first. Approval: how a version is approved.
-- Examples: one tenant with one job, its keys and texts, on which the theorems are applied.
--
-- State is passed explicitly: an operation takes the tables and returns its result with the new
-- tables, or an error. A transaction that raises is rolled back, as the unit of work does, so an
-- error carries no tables, and a sequence of calls goes on with the old ones. A call is one
-- transaction, but for `publish_batch`: each operation of its outbox commits by itself, an error
-- keeps what was committed before, and nobody else writes between two operations of one batch.
-- Other concurrent calls are the interleavings of whole transactions. All recursion is on lists or
-- on numbers; only the loop of Chunks takes fuel, and the digits of a number and their count, for
-- which the number itself is enough.
--
-- Values that the code takes from outside are arguments: the clock, fresh identifiers, the digests
-- (SHA-256, HMAC), the texts of the JSON columns, the JSON encoder of the search documents, the
-- envelope factory, the rows that another publisher has locked, and the loader of the authority,
-- which is a port of the worker. A theorem that assumes something of them says so: that a fresh
-- record id is fresh, that a digest has 32 bytes, that a time is UTC. A JSON value is its text,
-- and an enumeration of one member is left out. The type of a field stands for the `isinstance`
-- check of it. A claim that breaks a unique constraint of the attempts would raise; it does not
-- here, and neither do foreign keys. The metadata of a stored result is its object, not its text,
-- and the order of the checks on a malformed URL is kept, but not the class of its error.
--
-- Not modelled: the HTTP layer, the broker, the SQL engine itself, file parsing, search and model
-- calls, which are I/O; and so far the services on sessions, invitations, matters, documents,
-- rules and the rest of the legal corpus.
pub mod Prelude
pub mod Common
pub mod Tenancy
pub mod AiJobs
pub mod Authz
pub mod Bulk
pub mod Idempotency
pub mod JobStore
pub mod Chunks
pub mod Evidence
pub mod Reviews
pub mod SourceDiff
pub mod Worker
pub mod JobService
pub mod Examples
