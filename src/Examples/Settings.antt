-- ===== src/Examples/Settings.antt =====
-- The settings, the routes of the listener and the proxy.
use ratelimit_gateway.Base.{
  ℕ, ◌≡◌, refl, String, true, false, Option, none, some, List, [], ◌∷◌, if◌then◌else◌, str_eq,
  ne_of_str_eq, ok, err, Tells, decimal,
}
use ratelimit_gateway.Number.Fixed.{Fixed, fixed_number}
use ratelimit_gateway.Limiter.Redis.{ℤ, pos, sliding_window, Args, Value, algorithm_of}
use ratelimit_gateway.Limiter.Redis.Allowed.{sliding_limiter}
use ratelimit_gateway.Gateway.Tenant.{Resolver}
use ratelimit_gateway.Console.Config as Page
use ratelimit_gateway.Console.Config.{default_config, load_config}
use ratelimit_gateway.Server.Config.{
  Url, Config, a_boolean, not_a, Environment, env_as, console_path_of, port_of, load,
}
use ratelimit_gateway.Server.Config.Loaded.{IsConfigured, IsBlamed, load-Tells}
use ratelimit_gateway.Server.Pipeline.{Running, new_rate_limit}
use ratelimit_gateway.Server.Routes.{
  asset, health, proxied, redirect, not_allowed, not_found, clean_path, route, Visit, serve,
}
use ratelimit_gateway.Server.Routes.Console.{settings_of, serve-console, load_config-served}
use ratelimit_gateway.Server.Proxy.{
  failed, proxy_events, record_event, record_events, observe, observe-proxy_events,
}

abbrev parse_url : String → Option Url
parse_url raw =
    if str_eq raw "http://localhost:8081"
    then some (record { scheme = "http"; host = "localhost:8081" })
    else none

abbrev parse_duration : String → Option ℤ
parse_duration raw = if str_eq raw "1s" then some (pos 1_000_000_000) else none

abbrev environment : Environment
environment key =
    if str_eq key "GATEWAY_ALGORITHM"
    then some "sliding_window"
    else if str_eq key "GATEWAY_CONSOLE_PATH"
    then some "me"
    else if str_eq key "GATEWAY_BREAKER_COOLDOWN"
    then some "1s"
    else none

abbrev cfg : Config
cfg = record {
  listen_addr = ":8080";
  metrics_addr = ":9090";
  upstream_url = record { scheme = "http"; host = "localhost:8081" };
  redis_addr = "localhost:6379";
  redis_password = "";
  redis_pool_size = pos 128;
  algorithm = sliding_window;
  tenants_path = "tenants.json";
  fail_open = true;
  limiter_timeout = pos 50_000_000;
  breaker_thresh = pos 5;
  breaker_cooldown = pos 1_000_000_000;
  trust_xff = false;
  shutdown_timeout = pos 15_000_000_000;
  console_path = "/me/";
  console_probe_path = "/get";
  public_dashboard_port = "9090";
}

cfg-load : load parse_url parse_duration environment ≡ ok cfg
unfolding load env_as console_path_of port_of
cfg-load = refl

-- A console path of a slash alone is accepted.
root_console :
    console_path_of (λ key. if str_eq key "GATEWAY_CONSOLE_PATH" then some "/" else none) ≡ "/"
unfolding console_path_of
root_console = refl

maybe_open :
    load parse_url parse_duration
      (λ key. if str_eq key "GATEWAY_FAIL_OPEN" then some "yes" else none)
    ≡ err (not_a a_boolean "GATEWAY_FAIL_OPEN" "yes")
unfolding load env_as
maybe_open = refl

load-Tells_example :
    Tells
      (IsConfigured parse_url parse_duration environment)
      (IsBlamed parse_url parse_duration environment)
      (load parse_url parse_duration environment)
load-Tells_example = load-Tells parse_url parse_duration environment

-- Redis cannot be reached.
abbrev unreachable : String → Args Fixed → ℕ → Option (List Value) × ℕ
unreachable key args s = (none, s)

abbrev resolver : Resolver
resolver = record {
  keys = [];
  tiers = [];
  anon = record { name = "free"; limit = 2; window = 1_000_000_000; burst = 0 };
  trust_forwarded_for = false;
}

abbrev visit : String → String → Visit
visit method path = record {
  method = method;
  path = path;
  reachable = true;
  arrival = record {
    request = record { header = λ name. ""; remote_addr = "10.0.0.7:1" };
    started = 0;
    called = 0;
    ended = 0;
    member = none;
    upstream = record { status = 200; header = λ name. none };
  };
}

abbrev running : Running ℕ
running = record { rl = new_rate_limit true 5 5; store = 0 }

routes :
    (route "/me/" "GET" "/me" ≡ redirect "/me/")
    × (route "/me/" "GET" "/me/app.js" ≡ asset "/app.js")
    × (route "/me/" "POST" "/me/config" ≡ not_allowed)
    × (route "/me/" "HEAD" "/healthz" ≡ health)
    × (route "/me/" "POST" "/healthz" ≡ proxied)
    × (route "" "GET" "/me/config" ≡ proxied)
unfolding route clean_path
routes = (refl, refl, refl, refl, refl, refl)

unclean :
    (route "/me/" "GET" "/me/../x" ≡ redirect "/x")
    × (route "/me/" "GET" "/me//x/./y/" ≡ redirect "/me/x/y/")
    × (route "/me/" "POST" "/me/." ≡ redirect "/me/")
    × (route "/me/" "GET" "//healthz" ≡ redirect "/healthz")
    × (route "/me/" "CONNECT" "/me//x" ≡ not_allowed)
    × (route "/me/" "CONNECT" "" ≡ not_found)
    × (clean_path "" ≡ "/")
    × (clean_path "a/../../b/.." ≡ "/")
unfolding route clean_path
unclean = (refl, refl, refl, refl, refl, refl, refl, refl)

serve-console_example :
    ((serve unreachable cfg resolver (sliding_limiter "rl") (visit "GET" "/me//healthz") running).1
      ≡ running)
    × (route "/me/" "GET" "/me//healthz" ≡ redirect "/me/healthz")
unfolding clean_path
serve-console_example =
    serve-console unreachable cfg resolver (sliding_limiter "rl") (ne_of_str_eq "/me/" "/" refl)
      (visit "GET" "/me//healthz") "/healthz" running (refl, refl) refl

load_config-served_example :
    let (answer, after) =
      serve unreachable cfg resolver (sliding_limiter "rl") (visit "GET" "/me/config") running in
    let location : Page.Location = record { protocol = "http:"; hostname = "here" } in
    let view : Page.ConfigView = record {
      probe_label = "";
      algorithm = "";
      link_href = "";
      link_hidden = false;
    } in
    let (shown, page) = load_config location (settings_of answer) default_config view in
    (after ≡ running)
    × (shown.base_path ≡ "/me/")
    × (shown.probe_path ≡ "/get")
    × (shown.dashboard_port ≡ "9090")
    × (algorithm_of shown.algorithm ≡ some sliding_window)
    × (page.probe_label ≡ "→ /get")
    × (page.algorithm ≡ "sliding_window")
    × (page.link_hidden ≡ false)
    × (page.link_href ≡ "http://here:9090/")
unfolding clean_path
load_config-served_example =
    load_config-served unreachable cfg resolver (sliding_limiter "rl")
      (ne_of_str_eq "/me/" "/" refl) parse_url parse_duration environment (visit "GET" "/me/config")
      running (record { protocol = "http:"; hostname = "here" }) default_config
      (record { probe_label = ""; algorithm = ""; link_href = ""; link_hidden = false }) cfg-load
      (ne_of_str_eq "/me/" "" refl) refl refl refl

observe-proxy_events_example :
    let ((label, elapsed), sent) = observe 3 8 (proxy_events (failed (103 ∷ []) true)) in
    (label ≡ decimal 103) × (sent ≡ 200) × (elapsed ≡ 5)
observe-proxy_events_example = observe-proxy_events 3 8 (failed (103 ∷ []) true) (refl, tt)

-- A request that the client cancels counts as one that the upstream has answered, with 200 or with
-- an informational status.
cancelled :
    (observe 3 8 (proxy_events (failed [] true)) ≡ (("200", 5), 200))
    × (observe 3 8 (proxy_events (failed (103 ∷ []) true)) ≡ (("103", 5), 200))
    × (observe 3 8 (proxy_events (failed (103 ∷ []) false)) ≡ (("502", 5), 502))
unfolding observe record_events record_event decimal
cancelled = (refl, refl, refl)
