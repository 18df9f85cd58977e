-- ===== src/Lib.antt =====
-- tsbridge: a reverse proxy that puts the services of a configuration on a Tailscale network.
--
-- A configuration (internal/config) is read, completed and validated; the registry
-- (internal/service) starts one listener, HTTP server and proxy handler for each of its
-- services; the application (internal/app) compares each later configuration with the one before
-- and asks the registry to remove, add and update services. Errors of all parts
-- (internal/errors) have a type that decides the HTTP status.
--
-- - Prelude: Boolean tests, lists measured by native numbers, association lists for Go maps,
--   signed integers, strings as bytes, their order, and strconv.Atoi.
-- - Constants: internal/constants/constants.go.
-- - Errors: internal/errors/errors.go; Errors/Reload and Errors/Startup: the errors of a reload
--   and of a start, with their maps of failures.
-- - Config: the records of internal/config/config.go. Config/Defaults is SetDefaults and
--   Normalize; Config/Hostname, Timeout, Address and Validate are the checks of Validate;
--   Config/Backend, Valid, ValidService and Accepts say what they accept. Config/FilePath and
--   Credentials are internal/config/credentials.go; Config/Process is resolveSecrets and the
--   processing pipeline; Config/Secrets and Loaded say what comes out of them.
-- - Service: the records of internal/service/service.go. Service/Handler is CreateHandler,
--   Service/Lifecycle the start and stop of one service, Service/Operations the methods of the
--   registry. Service/Refines, Gauge, Start and Partial are about them.
-- - App: reloadConfigWithRegistry of internal/app/reload.go and ReloadConfig and the watch loop
--   of internal/app/app.go, over any registry that meets the interface RegistryOps. App/Contract
--   is what a reload relies on, Service/Refines fills it; App/Converge and App/Performed are
--   about one reload, App/Watch about any number of them. App/Program puts the registry,
--   validation and ServiceConfigEqual in.
-- - Config/Compare: internal/config/compare.go; Config/Sorted, SameMap, SameSettings and
--   Equivalence are about it. Config/Redact: internal/config/redact.go.
-- - Config/ByteSize: ParseByteSizeString of internal/config/config.go; Config/Settled: and
--   Config/ResolvedTwice: settings that have been resolved before.
-- - Docker: internal/docker. Docker/Connect is NewProvider, Docker/Labels and Docker/Parse are
--   labels.go; Docker/Load is the search for containers, Load and the comparison of docker.go,
--   Docker/Watching its reloads, events and event streams, Docker/Backoff the waits between
--   streams. Docker/Headers, Removal, Cached, Comparison and Delivered are about them. A loaded
--   configuration is processed by Config/Process; the receiver of the configurations is the
--   watch loop of App.
-- - Tailscale: internal/tailscale. Tailscale/Directory is the state directory (tailscale.go,
--   state.go), Tailscale/Secrets the auth keys (oauth.go), Tailscale/Listening the operations of
--   the server: they are behind the operations `listen` and `close_service` of `Host` in
--   Service. Tailscale/Live, Tracked, Operations and Leaks follow every tsnet server through
--   them; Tailscale/Attempts is about the retries.
-- - Middleware: internal/middleware, the layers that CreateHandler puts around the proxy, as the
--   request passes them (strip_tailscale_headers.go, whois.go, requestid.go, bodylimit.go).
--   Middleware/Spoofing and Admission say what reaches the proxy.
-- - Proxy: internal/proxy/proxy.go. Proxy/Backend is the backend address, the trusted proxies
--   and the transport, Proxy/Rewrite the headers; Proxy/Forwarded is about the addresses that
--   the backend is told. The handler is behind `new_handler` of `Host`.
-- - Metrics: the response writer and the middleware of internal/metrics/metrics.go, which
--   CreateHandler puts outside these layers; Metrics/Recorded is about them.
-- - Network: the registry of Service with the Tailscale server of Tailscale behind its host;
--   Network/Starting and Linked follow the tsnet servers through the registry's calls.
-- - App/Lifecycle: NewAppWithOptions, Start and Shutdown of internal/app/app.go over the
--   operations of the parts (`Parts`); App/Once is about Shutdown.
-- - Samples and Tests: concrete inputs.
--
-- State is passed explicitly: an operation of the registry takes a registry and returns the next
-- one with the error, if any. What lies outside the program is a parameter: `Host` (the tsnet
-- server, net/http and the proxy handler, over a world of any type), `Net` (parsing of addresses
-- and URLs), `Os` (environment and files), `Sockets`, `Daemon` and `Readers` (the Docker client,
-- the order of a map, the parsing of durations and floating-point numbers), `Tsnet` (the answers
-- of the tsnet library to the calls so far), `Web` (parsing of addresses, URLs and header names
-- for the proxy), `Api` (the Tailscale API and the library of retries), `Files`, `Upstream` (the
-- whois client, cache, backoff and UUIDs). The loops of a reload take the comparison of two
-- services as a parameter. Every loop is structural recursion over a list, over the retries left
-- (constants.RetryMaxAttempts, for whois) or over the five places of a port
-- number, so that no fuel is needed. A range over a Go map has no order in Go: Shutdown, which
-- stops all services at the same time, stops them here one by one in the order of the list that
-- stands for the map. Locks are not modelled: an operation that holds the registry's lock is one
-- step. A reload of the Docker provider is one step as well, although it takes the provider's
-- lock more than once. The text that fmt prints for an error is not modelled: a message keeps
-- its format and arguments.
--
-- Not modelled: reading of configuration files, the poll ticker of the Docker provider, the
-- priming of certificates, the wrappers of the tsnet library, the Prometheus vectors and
-- the metrics server, the passing of requests
-- and bodies by the proxy, logging, the access log, what is written to a response, the
-- classification of whois errors that may be retried (a parameter), and the command line.
pub mod Prelude
pub mod Constants
pub mod Errors
pub mod Config
pub mod App
pub mod Docker
pub mod Tailscale
pub mod Service
pub mod Metrics
pub mod Middleware
pub mod Proxy
pub mod Network
pub mod Samples
mod Tests
