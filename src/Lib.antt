-- ===== src/Lib.antt =====
-- A verification library for the document classifier: its backend under backend/app.
--
-- The program takes scanned TIFF files from an SFTP directory, classifies each with a model, and lets
-- reviewers correct the predictions of low confidence. Two workers and an HTTP API share a database
-- (SQLAlchemy), an object store (MinIO), a job queue (RQ), a policy enforcer (Casbin) and a cache
-- (Redis). This library models the services, the repositories and the workers between them.
--
-- The parts, and what each models:
--   Prelude             Boolean tests, lists, rows of a table, and the text of a UUID
--   Models              backend/app/db/models.py: the tables as records, and `Change`, the writes of
--                       rows that the program makes, with `apply`, what each does to the tables
--   Session             backend/app/infra/db.py and backend/app/domain/errors.py: the world (what the
--                       session sees, what is committed, what was sent outside), exceptions, and the
--                       session's statements, commits and closing
--   Repositories        backend/app/repositories: the queries and writes that the services use
--   Audit               backend/app/services/audit_log.py: events, and the filtered listing
--   Cache               backend/app/services/cache_invalidation.py, and `delete_cache_key` of
--                       backend/app/infra/cache.py
--   Authorization       backend/app/domain/roles.py, backend/app/infra/authz (casbin_enforcer.py and
--                       rbac_model.conf), backend/app/services/authorization.py
--   PolicySeeding       `seed_baseline_policies` of backend/app/infra/authz/casbin_enforcer.py
--   RoleManagement      backend/app/services/role_management.py
--   PredictionReview    backend/app/services/prediction_review.py
--   ClassificationJobs  backend/app/services/classification_jobs.py
--   Minio               backend/app/infra/minio.py: buckets, uploads and downloads
--   Ingestion           backend/app/services/ingestion.py, and the enqueueing of
--                       backend/app/infra/queue.py
--   Sftp                backend/app/infra/sftp.py: the connection, listings, metadata and reads
--   Vault               backend/app/infra/vault.py and backend/app/config.py
--   IngestionWorker     backend/app/workers/ingestion_worker.py: the rounds of its inner loop
--   InferenceWorker     backend/app/workers/inference_worker.py: the job `classify_document`
--   UserManagement      backend/app/services/user_management.py
--   Api                 backend/app/api: the route handlers, with status codes as exceptions
--   ModelCard           backend/app/classifier/validation.py and backend/app/domain/model_metadata.py
--   Classifier          backend/app/classifier: inference.py and golden_replay.py
--   StartupValidation   backend/app/services/startup_validation.py and startup_authorization.py
--   Guards              what an operation that returns has checked and done, and what is refused
--   Invariants          what every history of requests keeps
--   Transactions        an operation that raises has committed no table; the role service against its
--                       specification on counters of grants
--   Tests               small runs, and the theorems at these runs
--
-- Functions keep the names of the source. A method becomes a function of its arguments in the monad
-- `M`: from a world it gives a value or an exception, and the new world. What a method did before it
-- raised stays done in that world. Long methods are cut at their guards and loops into helpers that
-- follow them in order.
--
-- What is outside the repository is the record `Outside`: functions that answer each call of the
-- database's failures, Casbin, MinIO, RQ, Redis, SFTP, the classifier, SHA-256, the clock and the
-- generator of UUIDs. `tick` counts these calls, so that an answer may depend on when it is asked for.
-- The theorems hold for every such record; Casbin's relation `g` and rules `p` are functions of the
-- calls that it accepted. The order in which a query gives its rows, with `ORDER BY` or without, may
-- differ from query to query; a theorem may assume that it only reorders them. The start-up checks (`Probes`), the policy table (`AddPolicy`), Vault (`Vault`), the
-- SFTP connection (`Server`), Python's numbers (`Numbers`) and hashlib (`Hash`) have parameters of their
-- own. A database that fails ends the transaction: the pending changes are lost, and the session
-- refuses further statements until its rollback, which only its end brings.
--
-- The confidence is a Python float of 0 or more, counted in units of 2 ^ -1074, or a NaN. A UUID is
-- its number, a datetime the number of its instant. Loops are over finite lists, but for three:
-- the reads of `_sha256` get one more than the file has bytes, which is proved enough; the rounding of
-- a difference to a double removes at most 2046 bits, since a double has fewer than 2099; and of the
-- endless inner loop of the ingestion worker the first `n` rounds are modelled, for any `n`.
--
-- Not modelled: the registration of the routers, authentication, the neural network, logging, the
-- environment, migrations and scripts; the outer loop of the ingestion worker; timestamps that the
-- database sets, and the identifiers of audit events; constraints of the database other than a failing
-- statement; concurrent transactions.
pub mod PolicySeeding
pub mod Prelude
pub mod Models
pub mod Session
pub mod Repositories
pub mod Api
pub mod Audit
pub mod Cache
pub mod Authorization
pub mod RoleManagement
pub mod PredictionReview
pub mod ClassificationJobs
pub mod Classifier
pub mod Minio
pub mod ModelCard
pub mod Ingestion
pub mod Sftp
pub mod IngestionWorker
pub mod InferenceWorker
pub mod UserManagement
pub mod StartupValidation
pub mod Guards
pub mod Invariants
pub mod Transactions
pub mod Tests
pub mod Vault
