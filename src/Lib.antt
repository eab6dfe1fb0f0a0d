-- ===== src/Lib.antt =====
-- GoShield, a library of resilience patterns for Go: a verified model of its core.
--
-- The program wraps a function that may fail in patterns, each a package under internal with an
-- alias under pkg: a circuit breaker refuses calls while too many fail, a bulkhead bounds how many
-- run at once, rate limiters bound how often they start, the retry loop calls again after a delay,
-- a timeout bounds the wait, and a fallback answers in place of an error. pkg/resilience/executor.go
-- nests them, internal/metrics reports on them and internal/config holds their settings.
--
-- Where what is modelled.
--
-- Base: what the packages share of Go. Base/Go has errors as data, unsigned words that wrap at
--   2 ^ 32 and 2 ^ 64, readings of the monotonic clock, and `Exit`, which keeps a panic apart from a
--   return. A piece of code that runs a caller's function is a `Proc S A` over any state `S` of the
--   program, in which its object has a `Cell`; so the function may itself use the object. Base/Float
--   has float64 as an interface of operations, and the laws of IEEE 754 as records that the theorems
--   name one by one; Examples/Fixed meets them with fixed-point numbers.
-- Breaker: internal/breaker/breaker.go. Breaker/Core and Breaker/Calls have every method as a
--   critical section on the record CircuitBreaker, given the reading of the clock that it makes;
--   Breaker/Trace has histories of such sections, in the order in which the mutex admits them, and
--   Breaker/Execute has Execute as a Proc, which Breaker/Sections relates to those histories;
--   Breaker/Streak has the streaks of failed calls, which open a breaker, and Breaker/Recovery those
--   of probes, which close it; Breaker/Lost is about a probe whose function panics. Breaker/Adaptive
--   has internal/breaker/adaptive.go, around the former. The other files prove.
-- Bulkhead: internal/bulkhead/bulkhead.go. Bulkhead/Core has its critical sections and channel
--   operations, Bulkhead/Execute composes them to Execute, and Bulkhead/Crowd lets any number of
--   goroutines take them as the steps of a relation.
-- RateLimit: internal/ratelimit/ratelimit.go, RateLimit/TokenBucket and RateLimit/SlidingWindow,
--   and in RateLimit/Limiter the interface that both of them fill. RateLimit/Burst is about requests
--   at one instant.
--   The loops of Wait run over the list of rounds that the clock, the timer and the context give.
-- Backoff: internal/backoff/backoff.go, the strategies, the retry loop and the tracker. The loop
--   runs on fuel, one unit for each call of the function; for a strategy that gives up after `max`
--   retries, max + 1 units are enough, since each round but the last asks it for one more delay.
-- Timeout and Fallback: internal/timeout/timeout.go and internal/fallback/fallback.go. In Timeout
--   the race of the function and the deadline is an argument; Timeout/Select has it as the steps of
--   the two goroutines, the channel and the context.
-- Resilience: pkg/resilience. Resilience/Options puts an executor together, Resilience/Executor runs
--   it, and Resilience/Chain has the chains of decorators.
-- Metrics: internal/metrics, the samples of each collector, the registry and the histograms;
--   Metrics/Labels and Metrics/Exposition write the text that is served.
-- Config: internal/config/config.go, the settings, their validation, the environment and JSON, and
--   internal/config/watcher.go, which polls the file: Config/Watcher has what a poll does, and
--   Config/Watcher/Lives the Starts and Stops of many goroutines, and the polls with their callbacks,
--   as the steps of a relation; whether a callback panics is a parameter. Config/Tags has the struct
--   tags, as the members that each section is written with and read from.
-- Middleware: pkg/middleware/middleware.go. A handler is the list of calls that it makes of the
--   writer, and how it ends; a middleware is a function of handlers. Middleware/Nested is about a
--   breaker around a rate limiter.
-- Public: the packages under pkg that do more than rename an internal one. Metrics/Typing and
--   Public/Typed give the names of the metrics their types.
-- Programs: the command (cmd/goshield/main.go) in Programs/Command, the programs under examples in
--   the other files (Settings is examples/config, Server examples/http, Observed examples/metrics,
--   Compose examples/compose, Advanced and Degradation examples/advanced), and
--   internal/version/version.go. What they print is a line that holds the values it formats.
-- Examples: tests, and the theorems applied at concrete inputs.
--
-- What is a parameter: float64, the clock, the choice of `select`, the timer and the goroutine
-- behind it, the callbacks, the environment and the parsers of strconv. Integers of type int and
-- durations are unbounded, except where the code can overflow them in earnest: the Fibonacci delays
-- and the durations of the settings are reduced to 64 bits. A `go` of a callback is an entry of a
-- trace or an action on the state.
--
-- encoding/json, net/http, fmt, sort and the file system are parameters too, with what they document
-- as records of laws (IsJson, IsHttp).
--
-- What is not modelled: the data races that the code has outside its mutexes; what the goroutine of
-- the middleware TimeoutWithResponse still does after the answer; the requests and bodies of HTTP,
-- which the middleware only hands on; and of the programs, the parsing of flags, the formats of what
-- they print, and the servers that they start. The draws of math/rand and the sleeps are parameters.
-- A name of a public package that only renames is modelled by what it renames.
pub mod Base
pub mod Metrics
pub mod Config
pub mod Breaker
pub mod Bulkhead
pub mod RateLimit
pub mod Backoff
pub mod Timeout
pub mod Fallback
pub mod Resilience
pub mod Middleware
pub mod Public
pub mod Programs
mod Examples
