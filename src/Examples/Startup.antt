-- ===== src/Examples/Startup.antt =====
-- A gateway that was started with the sliding window, and visits to its listener.
use ratelimit_gateway.Base.{
  ◌≤◌, ◌≡◌, refl, String, true, false, Option, none, some, List, [], ◌∷◌, map, count, if◌then◌else◌,
  str_eq, eq_of_str_eq, ne_of_str_eq, not, Bool, ℕ, err, ok, arith,
}
use ratelimit_gateway.Number.Fixed.{fixed_number}
use ratelimit_gateway.Limiter.Memory.Sets.{
  SetSlot, no_sets, entries-no_sets, memory_sets, memory_sets-IsSortedSets, memory_sets-IsLocal,
}
use ratelimit_gateway.Limiter.SlidingWindow.Log.{decisions, is_within, admitted}
use ratelimit_gateway.Limiter.Redis.{ℤ, pos, sliding_window}
use ratelimit_gateway.Gateway.Tenant.{FileFormat, load, resolve, api_key, client_ip}
use ratelimit_gateway.Gateway.Tenant.Address.{IsAddress, anonymous_at, join_host_port}
use ratelimit_gateway.Http.{Response}
use ratelimit_gateway.Server.Config as Settings
use ratelimit_gateway.Server.Config.{Url, Config, Environment, env_as, console_path_of, port_of}
use ratelimit_gateway.Server.Routes.{Visit, route, clean_path}
use ratelimit_gateway.Server.Routes.Proxied.{proxied_arrivals, forwarded_of}
use ratelimit_gateway.Server.Startup.{Gateway, bad_pattern, gateway_of, start, listen}
use ratelimit_gateway.Server.Startup.Limited.{IsVisitor, IsVisitor-IsServed, start-IsLimited}
use ratelimit_gateway.Server.Pipeline.Isolated.{IsServed, own_responses, serve_all-isolated}
use ratelimit_gateway.Server.Pipeline.{Arrival, serve_all}
use ratelimit_gateway.Gateway.Breaker.{new_breaker}
use ratelimit_gateway.Limiter.Redis.Allowed.{sliding_limiter}
use ratelimit_gateway.Server.Pipeline.Callers.{has_passed}
use ratelimit_gateway.Examples.Server.{
  server, file, file-loads, resolver, arrival, plain_address, port_1, port_2,
}

-- The environment of a gateway with the sliding window.
abbrev environment : Environment
environment key =
    if str_eq key "GATEWAY_ALGORITHM"
    then some "sliding_window"
    else if str_eq key "GATEWAY_TRUST_FORWARDED_FOR"
    then some "False"
    else none

abbrev parse_url : String → Option Url
parse_url raw = some (record { scheme = "http"; host = "localhost:8081" })

abbrev parse_duration : String → Option ℤ
parse_duration raw = none

abbrev files : String → Option FileFormat
files path = if str_eq path "tenants.json" then some file else none

abbrev takes_pattern : String → Bool
takes_pattern path = not (str_eq path "/")

abbrev cfg : Config
cfg = record {
  listen_addr = ":8080";
  metrics_addr = ":9090";
  upstream_url = record { scheme = "http"; host = "localhost:8081" };
  redis_addr = "localhost:6379";
  redis_password = "";
  redis_pool_size = pos 128;
  algorithm = sliding_window;
  tenants_path = "tenants.json";
  fail_open = true;
  limiter_timeout = pos 50_000_000;
  breaker_thresh = pos 5;
  breaker_cooldown = pos 5_000_000_000;
  trust_xff = false;
  shutdown_timeout = pos 15_000_000_000;
  console_path = "/__gateway/";
  console_probe_path = "/get";
  public_dashboard_port = "9090";
}

abbrev gateway : Gateway (String → SetSlot)
gateway = gateway_of cfg resolver no_sets

gateway-start : start parse_url parse_duration files takes_pattern environment no_sets ≡ ok gateway
unfolding start Settings.load load env_as console_path_of port_of gateway_of
gateway-start = refl

-- The multiplexer does not take the pattern of the proxy twice.
abbrev root_console : Environment
root_console key = if str_eq key "GATEWAY_CONSOLE_PATH" then some "/" else none

root_console-panics :
    start parse_url parse_duration files takes_pattern root_console no_sets ≡ err (bad_pattern "/")
unfolding start Settings.load load env_as console_path_of port_of gateway_of
root_console-panics = refl

abbrev visit : String → Arrival → Visit
visit path a = record { method = "GET"; path = path; reachable = true; arrival = a }

-- A request of another host.
abbrev foreign : Arrival
foreign = record (arrival 450 "1" "z") {
  request = record { header = λ name. ""; remote_addr = join_host_port "10.0.0.8" "1" };
}

-- Three requests of a host, with a health check, the console and another host between them.
abbrev visits : List Visit
visits =
    visit "/get" (arrival 0 "1" "a")
    ∷ visit "/healthz" (arrival 1 "1" "x")
    ∷ visit "/get" (arrival 400 "2" "b")
    ∷ visit "/__gateway/config" (arrival 401 "2" "y")
    ∷ visit "/get" foreign
    ∷ visit "/get" (arrival 499 "2" "c")
    ∷ []

abbrev host_responses : List Response
host_responses =
    own_responses resolver "anon:10.0.0.7" (proxied_arrivals "/__gateway/" visits)
      (forwarded_of (listen server gateway visits).0)

arrival-IsVisitor :
    (port : String)
    → IsAddress "10.0.0.7" port
    → (now : ℕ) (member : String) → IsVisitor "10.0.0.7" resolver (arrival now port member)
arrival-IsVisitor port address now member = record {
  with_member = refl;
  own = λ named. plain_address port address now member;
}

foreign-IsVisitor : IsVisitor "10.0.0.7" resolver foreign
unfolding resolve api_key client_ip
foreign-IsVisitor = record {
  with_member = refl;
  own = λ named. absurd (
      ne_of_str_eq "anon:10.0.0.8" "anon:10.0.0.7" refl
        (eq_of_str_eq "anon:10.0.0.8" "anon:10.0.0.7" named));
}

start-IsLimited_example :
    let passed = map has_passed host_responses in
    (passed ≡ decisions 1000 2 [] (0 ∷ 400 ∷ 499 ∷ []))
    × (count (is_within 1000 100) (admitted (0 ∷ 400 ∷ 499 ∷ []) passed) ≤ 2)
unfolding gateway_of route clean_path resolve api_key client_ip
start-IsLimited_example =
    start-IsLimited server (λ key now window limit member s. refl) "10.0.0.7"
      memory_sets-IsSortedSets memory_sets-IsLocal visits 100 no_sets parse_url parse_duration files
      takes_pattern environment gateway 1000 gateway-start refl refl refl
      (record {
        visitors = (
          arrival-IsVisitor "1" port_1 0 "a",
          (
            arrival-IsVisitor "2" port_2 400 "b",
            (foreign-IsVisitor, (arrival-IsVisitor "2" port_2 499 "c", tt)),
          ),
        );
        absent = entries-no_sets "rl:sliding_window:anon:10.0.0.7";
        ascending = (omega arith, (omega arith, (omega arith, tt)));
        fresh = (refl, (refl, (refl, tt)));
      })

abbrev mixed : List Arrival
mixed = arrival 0 "1" "a" ∷ foreign ∷ arrival 400 "2" "b" ∷ arrival 499 "2" "c" ∷ []

served :
    (a : Arrival)
    → IsVisitor "10.0.0.7" resolver a
    → IsServed resolver (anonymous_at resolver "10.0.0.7") a
served a visitor = IsVisitor-IsServed "10.0.0.7" file resolver a file-loads visitor

serve_all-isolated_example :
    let passed = map has_passed (
      own_responses resolver "anon:10.0.0.7" mixed
        (serve_all server resolver (sliding_limiter "rl") mixed gateway.running).0) in
    (passed ≡ decisions 1000 2 [] (0 ∷ 400 ∷ 499 ∷ []))
    × (count (is_within 1000 100) (admitted (0 ∷ 400 ∷ 499 ∷ []) passed) ≤ 2)
unfolding gateway_of resolve api_key client_ip new_breaker
serve_all-isolated_example =
    serve_all-isolated server (λ key now window limit member s. refl) resolver "rl"
      (anonymous_at resolver "10.0.0.7") (omega arith) 1000 (omega arith) refl
      memory_sets-IsSortedSets memory_sets-IsLocal mixed gateway.running 100
      (
        served (arrival 0 "1" "a") (arrival-IsVisitor "1" port_1 0 "a"),
        (
          served foreign foreign-IsVisitor,
          (
            served (arrival 400 "2" "b") (arrival-IsVisitor "2" port_2 400 "b"),
            (served (arrival 499 "2" "c") (arrival-IsVisitor "2" port_2 499 "c"), tt),
          ),
        ),
      )
      refl (entries-no_sets "rl:sliding_window:anon:10.0.0.7")
      (omega arith, (omega arith, (omega arith, tt))) (refl, (refl, (refl, tt)))
