-- ===== src/Lib.antt =====
-- Liteploy: a deployment platform for one server. An HTTP API creates applications and asks for
-- deployments; a queue hands these to workers; a worker builds or pulls an image, starts a
-- container, waits until it is healthy, routes the application's domains to it through Caddy and
-- removes the old container. All state is kept in JSON files below one directory.
--
-- Parts and files (paths of the program from the repository's root):
-- - Deployment (internal/deployment/deployment.go): the statuses and `Transition`; Machine relates
--   them to the arrows of `validTransition` and bounds how many are followed.
-- - Deployment/Service (internal/deployment/service.go): `Enqueue`, `Cancel`, `Get`, the lists,
--   `EnqueueRollback`, in Service/Runs `runJob`, `PruneOldDeployments` and
--   `ClearFailedDeployments`, in Service/Loading `loadAll`. `Enqueue` is `enqueue`; its part behind
--   the check is `admit`, since the lock is released between the two.
-- - Deployment/Pipeline (internal/deployment/pipeline.go): `waitForHealth`, `safePathJoin`, and in
--   Steps and Execution the steps of `Execute` over the state `Run`.
-- - Storage (internal/storage/storage.go): `safePath`, `WriteJSON`, `ReadJSON` and the states that
--   `atomicWrite` goes through.
-- - Application (internal/application): the records in Types, `Validate` in Validation,
--   `ParseDomainRoute`, `NormalizePath` and `validateDomain` in Domain, the service in Service, the
--   projects of project.go in Projects.
-- - Proxy (internal/proxy/proxy.go): routes and their checks, `buildCaddyConfig` in Config, the
--   manager's operations in Applying.
-- - Auth (internal/auth): Sessions is auth.go, with the encoding of a cookie's value in Base64;
--   Users is users.go.
-- - Webhook (internal/webhook/webhook.go): `ServeHTTP`, and the adapters of cmd/liteploy/main.go.
-- - Git (internal/git/git.go): `validateRef`, `Cleanup` and the mask of the output; `Clone` and `Sync`
--   in Commands, over a log of what they run, write and remove.
-- - Api (internal/api): the checks of server.go and handlers_auth.go with the login and the setup;
--   Routes is the part of `buildRouter` that leads to a change; AppHandlers, ContainerHandlers,
--   JsonHandlers and DomainHandlers, with Forms and Environment, are the handlers of handlers_app.go
--   and handlers_extra.go, SettingsHandlers those of handlers_domain.go.
-- - System (internal/system): Settings and Dns are settings.go, Recovery is recovery.go.
-- - Config (internal/config/config.go): `Load`. Startup (cmd/liteploy/main.go): the routes that are
--   posted at the start.
-- - Http: what the handlers read of a request and answer.
-- - Common: Go strings as lists of bytes (Text), maps (Table), decimal numbers, `path/filepath`,
--   `sort.Slice`, results that may be errors.
--
-- An operation takes the state and returns the new one with its result. The services call the store
-- through `write_json` and `read_json`; the pipeline calls the application service and the proxy's
-- manager; the webhook and the handlers call the services of applications, deployments and users.
--
-- Parameters: a disk that may fail at any call, Caddy's answers, Docker, Git, symbolic links, the
-- executor of a job, the times, HMAC-SHA256, bcrypt, random bytes, what `fmt.Sscanf` and `net/url`
-- read, and a resolver of names. The theorems on sessions and passwords name what they use of these:
-- JSON reads back a session that it wrote, a password matches its own hash. Case folding and spaces
-- are those of ASCII. `Update` is called with a copy that shares the map of labels of the stored
-- record, as all its callers do. An error of `os.Remove` on a key file, or of Docker's on a
-- container, leaves it there. A write goes through the states that a crash of the program can
-- show; the call of `Sync`, which matters when the power fails, leaves no trace. Values in JSON
-- files are kept as values: encoding and decoding are Go's.
--
-- Loops are recursion on lists. Two take fuel: printing a number, with fuel above the number, and
-- the climb of `safePathJoin` over the ancestors of a path, with fuel above the path's length. The
-- health check is recursion on the ticks before its deadline.
--
-- Not modelled: the worker goroutines, log files, backups, pages that only show something, the
-- statistics of the system, the command line, and the client of Docker.
pub mod Api
pub mod Application
pub mod Auth
pub mod Common
pub mod Config
pub mod Deployment
pub mod Git
pub mod Http
pub mod Proxy
pub mod Startup
pub mod Storage
pub mod System
pub mod Webhook
