-- ===== src/Lib.antt =====
-- thrustOauth2idServer: a Go server that runs a Rails application as its upstream process, proxies
-- HTTP to it through a response cache and X-Sendfile, and serves a small JSON API over the table of
-- users. This library models the parts that carry its logic.
--
-- The parts and their files:
--   Http        the standard library's headers, requests and response writers. Header is a map
--               under canonical keys; Writer is the interface ResponseWriter as operations on a
--               state, so that one writer wraps another; Client is the server's own writer, with
--               what has been sent. A handler behind a writer is the list of the calls it makes.
--   ProxyCache  internal/proxy/cache. Variant is variant.go, Response (with Stash for stashingWriter
--               and Directives for the regular expressions) is cacheable_response.go, Memory is
--               memory_cache_sponge.go, Handler is cache_handler.go: serve_http is ServeHTTP, with
--               the cache and the index of Vary headers as its state, and Handler.Concurrent has it
--               in the steps of any number of clients, at most one use of the index or of the
--               cache in each.
--   Proxy       Sendfile is internal/proxy/sendfile.go, Reverse is internal/proxy/reverse_proxy.go.
--   Server      Recorder and Middleware are internal/server/httpmiddleware/middleware.go, Http is
--               internal/server/http.go, Options is http_option.go.
--   Routers     Proxy is internal/routers/proxy.go: the chain of X-Sendfile, cache and reverse proxy
--               that the configuration gives, and what it serves; Rails is rails_middleware.go, Users is
--               users.go, and Setup is routers.go, NewRouter as the calls that it makes of gin.
--   Upstream    internal/upstream/server.go: Command has splitCommandLine, normalizeCommand and
--               parseSignal, Environment has buildEnv, over the struct Upstream of
--               internal/config/thrustOauth2idServer.go, and Prepare what Start checks before it
--               launches the process. Lifecycle is Start and Stop as a step relation: one call of
--               each, a step for each time that the lock is held, and a process that may exit at any
--               time.
--   Users       Types is internal/types/users_types.go, Ecode is internal/ecode/users_http.go, Model
--               is internal/model/users.go, Cache is internal/cache/users.go, and Dao is
--               internal/dao/users.go: each operation takes the table and the cache and gives them
--               back with its result; Dao.Batch is GetByIDs, Dao.Queries the reads by a query,
--               Dao.Transactions the three ByTx, and Dao.Concurrent the steps of GetByID, UpdateByID
--               and DeleteByID of any number of callers. Handler is internal/handler/users.go, over
--               a dao that is a record of operations; Handler.Wired puts the dao's own under it.
--   Database    internal/database: the variables that are set once, with NewUsersCache's choice of
--               internal/cache/users.go and what NewUsersHandler asks for; init_app is the end of
--               InitApp.
--   Config      internal/config/thrustOauth2idServer.go and configs/location.go.
--   Initial     cmd/thrustOauth2idServer/initial: the services, and what is closed; App is initApp.go
--               and main.go.
--   Prelude     shared names, maps as association lists, integers and text over native numbers.
--   Tests       concrete parameters and inputs at which the hypotheses hold.
--
-- A map of Go is an association list without its order being read, except where the code ranges
-- over it. Text is a string of bytes, but for the
-- upstream's command line, which is its runes. An int64 that may overflow wraps around where it is computed
-- (wrap_int64); sizes and lengths are natural numbers. The time is an argument, in nanoseconds.
-- Decimal numerals are printed on fuel, one round more than the number, which is more than it has
-- digits.
--
-- Parameters, each with its promises as named hypotheses: the cache behind the handler (CacheLaws and
-- HeldLaws), encoding/gob (GobLaws), ristretto (RistrettoLaws, RistrettoHeld), gorm's database
-- (DatabaseLaws) and the cache of users (CacheLaws of Users.Dao.Coherence, under which a deletion may
-- fail), and both for several rows at once (BatchLaws).
-- Parameters without a promise: the drivers of sqlite and redis, http.ServeFile, gzip and the limit of
-- a body, url.Parse, base64, the parts of a host and port, sponge's copier, queries and sessions, but
-- that a copied form keeps its id.
--
-- Not modelled: locks and concurrent requests, since each operation is one step, but for Start and
-- Stop of the upstream, the clients of the cache and the callers of the dao; logging but for the
-- request's; Hijack, which hands the connection over; what net/http does with the body of an answer to
-- HEAD; a negative port of the upstream; a start that ends within NewHTTPServer; the structs for the
-- API's documentation.
pub mod Config
pub mod Database
pub mod Http
pub mod Initial
pub mod Prelude
pub mod Proxy
pub mod ProxyCache
pub mod Routers
pub mod Server
pub mod Tests
pub mod Upstream
pub mod Users
