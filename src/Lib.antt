-- ===== src/Lib.antt =====
-- Project Progress Register: a model of the Go program's core and the theorems that make it correct.
--
-- The program is a register of projects, tasks and progress diaries behind an HTTP server, over
-- PostgreSQL and a file store. Modelled here are internal/identity, the accounts, sessions, login
-- throttling, password verifier, tokens and CSRF with the audit trail that every transition writes,
-- of internal/projects the projects, their members, their geofences and the tasks with their revisions,
-- internal/migrations, internal/filestore, and internal/progress, the diary of a task: updates with
-- their attachments and the evidence of a location, revisions, comments and accepted suggestions.
--
-- Base, Base/Tests, Base/Lists, Base/Integers, Base/Sorting: library names, Boolean tests on native
--   numbers, the row operations of a table (find, any, count, update, delete), integers, sorting.
-- Text: Go strings, as the sequence that `range` walks, and the functions of `strings`, `unicode` and
--   `unicode/utf8` that the source calls.
-- Schema, Schema/Values: the rows of the tables of internal/migrations/sql, their columns, the audit
--   event of internal/identity/types.go, and the directories of the file store.
-- Versions: a record of revisions, each from the version that the one before it left.
-- Db: what a repository method runs in. A World holds the tables, the files and an environment that
--   answers the n-th call: whether it fails, the clock, generated ids, random bytes. A method is a
--   function from a world to a result (`ok` or the error of the source) and a world. `transaction` is
--   Begin, the deferred rollback and Commit, of which each may fail. Db/Runs and Db/Steps take a run
--   that ended well apart, step by step; Db/Laws is on rollback, Db/Unmoved on what leaves the files
--   alone.
-- Platform: what the program calls and does not implement, as parameters: SHA-256, HMAC, Argon2id,
--   base64, the case table of Unicode and the address parser.
-- Identity/Types, Context: internal/identity/types.go, and cleanAuditContext and truncate of
--   service.go. Identity/Password: password.go. Identity/Throttle, Sessions, Accounts: postgres.go.
--   Identity/Service: service.go and token.go. The names are the source's, in snake case; the service
--   methods that share a name with a repository method end in _account, or name their object.
-- Identity/Ops: the transitions of the repository as one type. Identity/Changes, Users: what they
--   change. Identity/Atomic, Invariant, Reach, Trail, Revocation, Blocking, Counting, Verifier,
--   Access, Validation: the theorems. Identity/Tests, PlatformTests: runs on concrete tables.
-- Double: the order of IEEE doubles by their bits, for the coordinates.
-- Projects/Types, Store, Members, Service: internal/projects/types.go, postgres.go (projects and
--   geofences; memberships) and service.go. A repository method is named for the row that it writes or
--   reads (add_member_row), a service method has the source's name (add_member). The service audits a
--   denial through the repository, and both packages write the one table of audit events.
--   Projects/Fences, Membership, Guard, Writes: the theorems. Projects/Tests: runs on concrete tables.
-- Projects/Tasks/Types, Store, Changes, Service: task_types.go, task_postgres.go and task_service.go of
--   internal/projects. Projects/Tasks/Responsible, Outcomes, Record, Requests, Served: the theorems.
--   Projects/Tasks/Tests: runs on concrete tables.
-- Migrations/Load, Runner: internal/migrations/migrations.go, the reading of the files and the ledger.
--   Migrations/Order, Upgrade: the theorems. Migrations/Tests: runs on a small ledger.
-- Filestore/Names, Store: internal/filestore/store.go. A file stands for its path, which is its key; a
--   call of the file system fails or succeeds. Filestore/Keeping, Finalizing, Untouched: the theorems.
--   Filestore/Tests: runs on small directories.
-- Progress/Types, Evidence: internal/progress/types.go (what the browser reports) and evidence.go, over a
--   parameter for the arithmetic of doubles. Progress/Store, Updates, Attachments: postgres.go.
--   Progress/Review: review_types.go and review_postgres.go. Progress/Recovery, Service, Submission,
--   Create: service.go; the file store is the one of Filestore, and what joins it to the database is
--   Recovery. Progress/ReviewService: review_service.go. Progress/Trust, Outcomes, Edits, Reviewed,
--   Diary, Lifecycle, Histories, Repeats, Fenced, Reconciled, Recovered, Downloads:
--   the theorems. Progress/Tests,
--   DiaryTests, RecoveryTests: runs on concrete tables.
--
-- Numbers are the native ones; an instant or a duration is a number of nanoseconds, a uuid its 128-bit
-- value with 0 for the empty string. A version that a request expects is an integer (Base/Integers);
-- the service refuses one that is too small before the repository sees it. Instants are exact, where
-- PostgreSQL keeps microseconds. A transaction runs to its end before the next one begins, as the row
-- and advisory locks of the source arrange. No definition needs fuel.
--
-- Not modelled: the listings of users and of audit events; the assessments, dashboard and timeline of
-- internal/projects; the making of the directories by internal/filestore; the packages config, health
-- and httpserver, and the process around them. Of the constraints of the tables the unique ones are
-- modelled where a statement may meet them, the CHECK constraints are not. Markdown rendering, the
-- connection pool and the embedded assets are I/O or third-party code.
pub mod Base
pub mod Text
pub mod Schema
pub mod Db
pub mod Versions
pub mod Platform
pub mod Double
pub mod Identity
pub mod Projects
pub mod Migrations
pub mod Filestore
pub mod Progress
