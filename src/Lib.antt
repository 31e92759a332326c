-- ===== src/Lib.antt =====
-- nebengjek, a ride-sharing back end: the match, the rides, the location and the users service.
--
-- The program is four services. The users service talks to drivers and passengers; the location
-- service keeps the available ones in Redis; the match service proposes a passenger to the nearby
-- drivers and collects the confirmations of both sides; the rides service makes a ride of an
-- accepted match, bills it while it lasts and takes its payment. They exchange events over NATS, and
-- call each other over HTTP with an API key.
--
-- Go code that calls the outside world is a computation over the history of its calls, newest
-- first (Exec.antt): it returns a value, fails with an error or panics, and leaves a longer history.
-- What a call answers is a function of the call and of the history before it, in a record `Env`
-- that every definition takes, so that each theorem covers every pattern of replies and failures,
-- also what other instances of the service do in between. Logging and tracing are left out.
--
--   Prelude.antt   Booleans, byte strings, lists and decimals over the native numbers
--   Exec.antt      Go functions with errors, panics, `defer` and external calls
--   Domain.antt    internal/pkg/models, internal/utils/geohash.go (over a parameter for float64)
--   Matching.antt  the match service
--     Env, History     the calls of the service, and views of a history of them
--     Repo.*           services/match/repository/match.go
--     Usecase.*        services/match/usecase/match.go
--     Handler, Web     services/match/handler/nats/nats.go and http/match.go
--     Deliveries       the handlers that its consumers call
--     Laws.*           theorems
--   Riding.antt    the rides service
--     Env, History     the calls of the service, and views of a history of them
--     Repo             services/rides/repository/ride.go
--     Usecase          services/rides/usecase/ride.go
--     Handler, Web     services/rides/handler/nats/nats.go and http/rides.go
--     Deliveries       the handlers that its consumers call
--     Gateway          services/rides/gateway/nats.go
--     Laws.*           theorems
--   Locating.antt  the location service
--     Env              the calls of the service
--     Repo             services/location/repository/location.go
--     Usecase          services/location/usecase/location.go, services/location/handler/nats.go
--     Handler          services/location/handler/http/location.go
--     Laws.*           theorems
--   Users.antt     the users service
--     Env              the calls of the service
--     Repo             services/users/repository
--     Token            internal/pkg/jwt/token.go
--     Usecase.*        services/users/usecase: Auth is auth.go, Account is user.go, Forward the rest
--     Socket.*         services/users/handler/websocket/echo_handler.go
--     Gate             the checks of tokens in services/users/handler/routes.go
--     Web, Handler     services/users/handler/http and services/users/handler/nats
--     Deliveries       the handlers that its consumers call
--     Laws.*           theorems
--   Http.antt      HTTP between the services
--     Client           internal/pkg/http/client.go
--     Responses, Parse internal/utils/http.go
--     Gateways         services/match/gateway/http.go, services/users/gateway/http
--     Routes           the routes.go of every service, and the keys in cmd
--     Laws.*           theorems
--   Nats.antt      internal/pkg/nats: Client is client.go, Consumer and Batch are consumer.go,
--     Defaults, Setup  jetstream_helpers.go
--     Session          the connection in client.go
--     Subscriber       how a consumer is made and what it fetches
--     Producer         producer.go
--     Startup          how each service starts its consumers
--     Publish          the gateways that publish, as services/match/gateway/nats/nats.go
--     Delivery         how a handler is traced, with internal/pkg/newrelic/tracing.go
--   Middleware.antt  internal/pkg/middleware/unified.go: Recovery is the handler around a request,
--     Contexts         internal/pkg/context
--     Tracing          internal/pkg/observability/tracer.go
--   Health.antt    internal/pkg/health/enhanced.go
--   Config.antt    internal/pkg/config and internal/pkg/models/config.go
--   Server.antt    internal/pkg/server/server.go: the functions run at a shutdown
--   Utils.antt     internal/utils: Msisdn is msisdn.go, Strings is strings.go
--   Tests.antt     tests and instances of the theorems at concrete inputs
--
-- A function of the source keeps its name in the spelling of this library: ConfirmMatchByUser is
-- `confirm_match_by_user`, handleMatchAcceptance is `handle_match_acceptance`. A statement sent to
-- PostgreSQL, a Redis command, a message and a reading of the clock are each a constructor of
-- `Call`. A `go` statement is the call `go_auto_rejection`, and the goroutine is modelled by itself.
--
-- Bounds: an int is its 64-bit pattern and arithmetic on it wraps; a float64 is its bit pattern and
-- arithmetic on it is a parameter. No computation needs fuel but the printing of an int, which takes
-- 20 digits since 2 ^ 64 is below 10 ^ 20.
--
-- The map of the connected clients is what the history of a connection has added to it and taken
-- off it. The messages that a connection sends are a list.
--
-- The entries of the map of health checkers come in any order: the abstract view of the map is a
-- quotient of the lists of its entries. A check is a computation in a context with a deadline, and
-- may answer by all that ran before it.
--
-- Not modelled: the order of the start-up in cmd, and the libraries for JSON,
-- PostgreSQL, Redis, NATS, HTTP, routing and tokens, whose results are parameters. Of the string
-- helpers, those that need Unicode, a regexp engine or a random source are left out. A message that is
-- delivered again is its handler run again on the history that the first run left.
pub mod Prelude
pub mod Exec
pub mod Domain
pub mod Matching
pub mod Riding
pub mod Locating
pub mod Utils
pub mod Health
pub mod Config
pub mod Server
pub mod Users
pub mod Http
pub mod Nats
pub mod Middleware
mod Tests
