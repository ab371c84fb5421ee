-- ===== src/Lib.antt =====
-- The rate limiting gateway: the limiter with its Redis scripts, the tenants, the middleware and
-- its circuit breaker, the two browser pages with their explainer, and the load test.
--
-- The gateway proxies requests and asks a limiter, behind a circuit breaker, whether each may pass.
-- The operator's dashboard polls /api/stats once a second and runs bursts through /api/simulate;
-- the caller's console sends requests through the proxy and shows what their headers say.
--
-- Dashboard models internal/dashboard/static/app.js. Stats holds the payload of
--   internal/dashboard/dashboard.go. Format has formatCount, formatDuration, formatLatency and
--   escapeHtml; Header renderHeader; Kpis renderKpis; Tiers renderTiers and populateTierOptions;
--   Chart drawChart, as the list of its canvas commands; Poll has `state` and poll; Simulator has
--   renderSimulation and runSimulation. A poll is one step, from its answer on, since nothing else
--   runs between the last await and the end of the function; overlapping polls are the order in
--   which their answers arrive.
-- Console models internal/console/static/app.js. Config has loadConfig and currentKey; Result has
--   sendOne's result and numberOrNull; Meter has updateMeter, describeTier and startResetCountdown;
--   Log has appendDot, appendLog and the clear button; Record has record; Send has sendBurst,
--   setBusy, floodLoop and toggleFlood, as a step relation whose steps are the clicks, the
--   responses and the ends of the pauses.
-- Gateway models internal/breaker/breaker.go (Breaker), Wrap and applyFailurePolicy of
--   internal/middleware/ratelimit.go (Middleware) and handleSimulate of
--   internal/dashboard/dashboard.go (Simulate). Each method of the breaker holds its mutex and is
--   one step. The limiter and the upstream are arguments. Stats models handleStats of dashboard.go,
--   with its histograms' quantiles (Latency) and the texts of durations (Texts); what Prometheus
--   has gathered is an argument. Tenant models internal/tenant/tenant.go: Load on the parsed file,
--   and Resolve with apiKey and clientIP.
-- Limiter models internal/limiter. Store has what the scripts use of Redis, as commands on a state
--   that is a parameter with records of laws; SlidingWindow, FixedWindow and TokenBucket are the
--   scripts in internal/limiter/scripts, each one step on that state; Redis has limiter.go and
--   Allow of redis.go, over a server that runs a script. Memory is a store that meets the laws. The
--   time of the server that ends a key's life is taken to be the one that the caller passes on, but
--   for the token bucket, which has both.
-- LoadTest models scripts/loadtest.js: its configuration and an iteration of each scenario.
-- Explain models internal/dashboard/static/explain.js, of which internal/console/static/explain.js
--   is a copy. Texts has window.EXPLAIN; Glossary has esc, renderWhat, renderHow and renderWords;
--   Panel has open, close, showPop, hidePop, boot and the listeners, one event at a time; Words has
--   the regular expression of a term and Marks has markTerms, on a page that is the list of its
--   text nodes. The engine's toLowerCase is an argument.
-- Server models what cmd/gateway/main.go builds of these. Config has internal/config/config.go,
--   with the environment as a function; Routes has the patterns of the proxy's listener, how
--   http.ServeMux matches them and redirects paths that are not clean, its health checks and
--   internal/console/console.go; Startup has `run` up to its listeners; Pipeline has the
--   way of a proxied request through Resolve, the breaker, Allow and Wrap, one request after the
--   other, with what the outside gives to each as a record, and its Overlap cuts Wrap where it
--   waits, so that other requests run between; Proxy has Observe and ErrorHandler of
--   internal/proxy/proxy.go, over the calls that the standard library makes of the writer.
-- Integration has what the pages and a caller who retries make of the gateway's answers.
--
-- Numbers. JavaScript computes with doubles: the scripts' numbers are a type parameter with the
-- operations of Number, and the theorems that need laws take them as a record, Number.Laws, whose
-- laws hold of doubles. Number.Fixed is a small exact type that meets them, on which Examples runs
-- the models. The counters that a script only increments are natural numbers. In the Go parts
-- counts, durations and times are natural numbers, in milliseconds but for quotas, tiers and
-- settings, whose windows are nanoseconds; the token bucket computes with doubles, and the other
-- two scripts with whole milliseconds, which doubles hold exactly below 2 ^ 53. Texts are native
-- strings; the page is a record of the texts and classes that a script writes, and of generated
-- markup the interpolated parts are kept. The five characters that escapeHtml replaces have the
-- same place in UTF-16 as in code points. A `while` loop that trims the log runs on as many rounds
-- as there are nodes, which is enough since each round removes one.
--
-- Not modelled: the shutdown of main.go and the listener of the dashboard, the collectors of
-- metrics.go, and the settings of proxy.go's transport, none of which the rest reads. The parsers
-- of URLs and of Go's durations are parameters. Redis is taken to lose no key before its time, and
-- no counter to pass 2 ^ 63. Of explain.js, styles and positions are left out. A payload is taken
-- to have its fields, so the rendering functions do not throw, and the elements of the pages are
-- taken to exist.
pub mod Base
pub mod Number
pub mod Http
pub mod Dashboard
pub mod Console
pub mod Gateway
pub mod Limiter
pub mod Explain
pub mod LoadTest
pub mod Server
pub mod Integration
mod Examples
