-- ===== src/Lib.antt =====
-- aether-edit: the services behind the media editor.
--
-- The repository's Go services keep transcode jobs (services/orchestrator) and resumable uploads
-- (services/upload), stream the progress of the jobs (services/telemetry), and meter what workspaces
-- use against their quotas (services/tenancy). This library models their core logic and proves what
-- it is meant to guarantee.
--
-- Jobs is services/orchestrator/internal/jobs: `Jobs` is job.go (states, error classes, the table of
--   `CanTransition`, the job row), `Jobs.Preset` is preset.go (`Preset.Validate`).
-- Store is services/orchestrator/internal/store/store.go: the jobs table as a list of rows and each
--   method as the one SQL statement it runs (`create_job` is CreateJob, `claim_next_queued` is
--   ClaimNextQueued and so on); `Store.Ops` is the step from one table to the next.
-- Landed is services/orchestrator/internal/consumer/landed.go: `handle` and `autoCreateJob`, over the
--   jobs table of Store.
-- Upload is services/upload: `Upload` is store.go (the rows), `Upload.Rows` is postgres.go, one
--   function per method, `Upload.Gauge` is backpressure.go, and `Upload.Handler`, `Upload.Create`,
--   `Upload.Put`, `Upload.Complete` and `Upload.Cancel` are the handlers of server.go, in chains of
--   steps that go on or end in the reply. The modules beside them hold proofs and say what about.
-- Telemetry is services/telemetry/internal: `Telemetry.Hub` is hub/hub.go (buffers and fan-out;
--   `Telemetry.Hub.Stream` is its ServeConn beside the pushes), `Telemetry.Aggregator` and
--   `Telemetry.Aggregator.Handlers` are jobs/aggregator.go: a handler up to the release of
--   its mutex. `Telemetry.Aggregator.Publication` has the handlers beside each other, where each of the
--   two calls of the hub that follow is a step of its own.
-- Tenancy is services/tenancy: `Tenancy.Metering` is metering.go with the SQL of postgres.go that
--   it runs, `Tenancy.Quota` is quota.go over the tiers of tiers.go, `Tenancy.Tiers` the check of the
--   tier file and `Tenancy.QuotaApi` the endpoints of quota.go. `Tenancy.Directory` has the rows of
--   store.go; it, `Tenancy.Memberships` and `Tenancy.Credentials` are the methods of postgres.go on
--   the users, workspaces, members, refresh tokens and API keys, one function per method.
--   `Tenancy.Access` has the replies and the checks of the caller of server.go, `Tenancy.Members` is
--   workspaces.go, `Tenancy.Keys` is apikeys.go with the middleware of server.go, `Tenancy.Sessions`
--   and `Tenancy.Refresh` are authflow.go, and `Tenancy.Service` is the routes of server.go: `serve`
--   is one request, `serve_all` a run of them. `Tenancy.Follows` carries a relation between two
--   directories from the writes of the store through the handlers to the routes.
-- Prelude holds what these share: Boolean tests on numbers and texts, lists, integers, results,
--   association lists, tables of rows, characters.
--
-- How the parts interact: the upload handlers call the store, the gauge, the backoff director, the
-- object storage and the event stream. The state of the service (`World`) is the two tables, the
-- gauge, the director and the calls made so far. What leaves the service is an argument: the outcome
-- of each call to the object storage, each try to publish, the quota answer, the fresh id, and
-- what becomes of each call of the database, which is answered, fails, or is carried out with its
-- answer lost. The job statements run in any order and on any arguments, which stands for several runners and handlers
-- at once: each is one atomic SQL statement, so that a claim finds no row locked (SKIP LOCKED). The aggregator owns its counters; what its
-- handlers publish to the hub follows after the mutex, in any order. The hub's subscribers drain their buffers in a loop; a run of that loop is any interleaving of its
-- steps with the pushes. A new subscriber is given the sticky events, in any
-- order. The metering consumer builds the rollups that the quota checks read; its transaction too may
-- commit with the answer lost. A request
-- to the tenancy service carries what the environment chooses for it: of each call of the database
-- whether it is answered, refused, or carried out with the answer lost; the time; and what is drawn
-- at random. A request is one step of a run, so that two handlers at once are not in the model.
--
-- Numbers: database sizes and counts that a CHECK keeps from being negative are natural numbers, Go
-- ints of a request are integers; the backoff's shift keeps its 64 bits and its sign. The upload
-- service's sums of sizes are not wrapped, since a size is at most the configured limit; the quota's sum
-- wraps. Times are instants as numbers.
-- Floating-point values are those of the parameter `Float`, of which only the listed operations are
-- used. JSON, and the order of a range over a Go map, are arguments.
-- `Codecs` stands for strings.ToLower and the hex of SHA-256. In the tenancy service the texts are
-- native, with Unicode's table of lower case, the hash of the tokens, the signature of `Mint` and
-- `Verify`, the check of a key's secret (Argon2id) and the identity provider as parameters; a text's
-- length is that of its UTF-8 bytes.
--
-- Loops are structural recursion: over a list, a table, the levels of a counter, or the rounds that
-- `publishJSON` has left (`publishRetries`), so none needs fuel.
--
-- Not modelled: JSON, logging and tracing, which change no state; timers and sleeping
-- between retries; the SQL engine beyond the statements; start-up and configuration;
-- the orchestrator's scheduler, engine adapter and HTTP API; the exchange with the identity provider
-- and the checks of signed tokens, which rest on libraries for HTTP and cryptography.
pub mod Prelude
pub mod Jobs
pub mod Store
pub mod Landed
pub mod Upload
pub mod Telemetry
pub mod Tenancy
