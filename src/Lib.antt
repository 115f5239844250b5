-- ===== src/Lib.antt =====
-- The document engine of MetalDocs: how a draft is edited under a lock, revision by revision, and how
-- a controlled document goes from draft through review and approval to publication and retirement.
--
-- The program. `internal/modules/documents_v2/approval` has a domain of pure rules (`domain/`), a
-- repository of SQL statements (`repository/`) and one service for each use case (`application/`). A
-- service opens a transaction, sets the tenant and the actor for the authorization of
-- `internal/modules/iam/authz`, loads rows, applies the rules of the domain, writes rows through the
-- repository or by statements of its own, adds a governance event, and commits; on any error it rolls
-- back. A document's status is changed only by an UPDATE of `documents`, which the trigger of
-- `migrations/0144_cancel_state.sql` checks.
--
-- The editor, in `internal/modules/documents_v2`, has a repository (`repository/repository.go`) and a
-- service (`application/service.go`). A user takes a document by a session, presigns an upload against
-- the revision that the session has seen, puts the object into the storage, and commits the upload as
-- the next revision; checkpoints name revisions. Sessions end by release or by the sweeper. Both parts
-- write the table `documents`: the editor its head and its lock, the approval engine its status.
--
-- The files.
-- Approval/State: `domain/state.go`, its transition graph, and the trigger (`trigger_allows`).
-- Approval/Route: `domain/route.go`, `Route.Validate`.
-- Approval/Signoff: `domain/signoff.go` and `domain/sod.go`, `NewSignoff` and `CheckSoD`.
-- Approval/Instance: `domain/instance.go`; each method of `Instance` is a function that returns the
--   new instance or its error.
-- Approval/Quorum and Approval/Drift: `domain/quorum.go` and `domain/drift.go`.
-- Approval/Payload: JSON values, and the two checks against floats of `application/services.go` and
--   `application/content_hash.go`.
-- Approval/Store: the tables (`Db`), a transaction as a function of the tables with an error result
--   (`Tx`), and the statements of `repository/postgres_approval_repository.go` with the constraints
--   and triggers of `migrations/0135_approval_instances.sql` that they meet.
-- Approval/Service: the services. Submit, Decide, Cancel, Publish, Retire and Scheduler are
--   `submit_service.go`, `decision_service.go`, `cancel_service.go`, `publish_service.go`,
--   `supersede_service.go` with `obsolete_service.go`, and `scheduler_service.go`. What they share is
--   in Service itself: the clock, new identifiers, foreign calls, and `Require` of `iam/authz`.
--   Freeze is the freeze that `decision_service.go` runs in its transaction, of
--   `documents_v2/application/freeze_service.go` and `documents_v2/repository/snapshot_repository.go`.
--   Keeps and History relate the tables before a call and after it, System puts the services
--   together, and Outcomes, Releases, Schedules, Successions, Cancellations, Signed and
--   Faults are about single services.
-- Editor/Tables: the rows of `domain/model.go` and `domain/comment.go`, and the tables of
--   `migrations/0110_docx_v2_documents.sql`.
-- Editor/Documents, Sessions, Uploads, Checkpoints and Comments: the methods of
--   `repository/repository.go`, one function each, named as they are. Editor/System puts the methods
--   that change tables together as calls.
-- Editor/Effects: what the success of a method has done to the tables, and one case for each way in
--   which a call can change them. Editor/Invariant, Commits, History and Restores are about these.
-- Editor/Leases: the sessions as a lock. A list of leases is the abstract state, with the operations
--   acquire, heartbeat, release, force_release and expire; Refines and Exclusive relate it to the rows.
-- Registry: `internal/modules/registry/domain/resolution.go`, the template of a controlled document.
-- Editor/Service: `application/service.go`, with the audit trail and the storage. Create is
--   `CreateDocument` (`create_for_registry`) and `DuplicateDocument`, whose registry, authorization,
--   templates, form validator, renderer, storage and snapshots are the record `Wiring`;
--   FirstRevision and Creations are about it.
-- Prelude/Sql: transactions over any tables, for the editor; Committed and Rows carry their lemmas.
-- Approval/Tests and Editor/Tests: runs at concrete inputs.
--
-- Conventions. An instant is a number, and a `time.Time` of zero is 0. Go's `int` is the natural
-- numbers where the code keeps it from going below zero, and `ℤ` where a caller passes it. A hash is
-- the list of its bytes, since it is walked; other texts are strings. `itoa` has the buffer of 20
-- bytes of the source, and an `int` has 64 bits. No fuel is used: every loop is over a list, or over
-- the room in that buffer. Every call of the database can fail: `Env.fails` says which, by a number that
-- the service gives to each of its calls.
--
-- Parameters. What a call takes from outside is a record `Env`: the clock, new identifiers, the rows of
-- `role_capabilities` and `user_process_areas`, the SHA-256 of the canonical form, the idempotency key,
-- what the freeze of a document computes from its placeholders, how the columns of a signoff keep a
-- payload and a time, and the failures of the database. The editor takes the clock, the identifiers
-- that the server generates, the storage and the failures; `Env.fails` also stands for the constraints
-- on tables that are not modelled, such as the template of a document, and for foreign keys that the
-- statements read before imply. A generated identifier that is taken violates the primary key, as in
-- the database. One law is asked of them, in one place: that the column of a signoff's time does not
-- turn it into the zero time.
--
-- Not modelled. Two transactions at the same time: each service runs alone, as the row locks of
-- `LoadInstance` and the guards of the updates are meant to make it look. The payloads of events. The
-- computed values that a freeze stores outside of the transaction, and how it computes them. The
-- dispatch of a PDF after the commit. The gaps that a rolled back transaction leaves in the sequence of
-- revision numbers. The cache of grants. Route administration, membership, the
-- cutover and the read service, the HTTP layer, the jobs, and the other modules of the repository,
-- which do not take part in the approval of a document or are transport.
pub mod Prelude
pub mod Registry
pub mod Approval
pub mod Editor
