-- ===== src/Examples/Server.antt =====
-- The gateway with a sliding window on the sorted sets in memory.
use ratelimit_gateway.Base.{
  ℕ, ◌≡◌, refl, String, true, false, Option, none, some, List, [], ◌∷◌, map, if◌then◌else◌, str_eq,
  ok, arith,
}
use ratelimit_gateway.Number.Fixed.{Fixed, fixed_number}
use ratelimit_gateway.Limiter.Memory.Sets.{SetSlot, no_sets, memory_sets}
use ratelimit_gateway.Limiter.SlidingWindow as Script
use ratelimit_gateway.Limiter.SlidingWindow.Log.{decisions}
use ratelimit_gateway.Limiter.Redis.{pos, Value, Args, allow}
use ratelimit_gateway.Limiter.Redis.Allowed.{values_of, sliding_limiter}
use ratelimit_gateway.Gateway.Breaker.{closed, new_breaker}
use ratelimit_gateway.Gateway.Tenant.{Tier, FileFormat, Resolver, load, resolve, api_key, client_ip}
use ratelimit_gateway.Gateway.Tenant.Address.{IsAddress, join_host_port}
use ratelimit_gateway.Server.Pipeline.{Arrival, Running, new_rate_limit, handle_proxied, serve_all}
use ratelimit_gateway.Server.Pipeline.Callers.{IsAnonymous}
use ratelimit_gateway.Server.Pipeline.Outage.{tripped, serve_all-outage, handle_proxied-recovered}

-- A server that runs the sliding window only.
abbrev pub server :
    String → Args Fixed → (String → SetSlot) → Option (List Value) × (String → SetSlot)
server key (Args.sliding_args now window limit member) s =
    let (reply, after) = Script.sliding_window key now window limit member s in
    (some (values_of reply), after)
server key args s = (none, s)

abbrev free : Tier
free = record { name = ""; limit = 2; window = 1_000_000_000; burst = 0 }

abbrev pub file : FileFormat
file = record { tiers = ("free", free) ∷ []; keys = []; anonymous_tier = "free" }

abbrev pub resolver : Resolver
resolver = record {
  keys = [];
  tiers = ("free", record free { name = "free" }) ∷ [];
  anon = record free { name = "free" };
  trust_forwarded_for = false;
}

pub file-loads : load false (some file) ≡ ok resolver
unfolding load
file-loads = refl

-- A request of one host at a time, from a port.
abbrev pub arrival : ℕ → String → String → Arrival
arrival now port member = record {
  request = record {
    header = λ name. if str_eq name "X-Forwarded-For" then "1.2.3.4" else "";
    remote_addr = join_host_port "10.0.0.7" port;
  };
  started = now;
  called = now;
  ended = now;
  member = some member;
  upstream = record { status = 200; header = λ name. none };
}

abbrev pub arrivals : List Arrival
arrivals = arrival 0 "1" "a" ∷ arrival 400 "2" "b" ∷ arrival 499 "2" "c" ∷ []

abbrev started : Running (String → SetSlot)
started = record { rl = new_rate_limit true 5 5; store = no_sets }

pub plain_address :
    (port : String)
    → IsAddress "10.0.0.7" port
    → (now : ℕ) (member : String) → IsAnonymous "10.0.0.7" (arrival now port member)
plain_address port address now member = record {
  port = port;
  address = address;
  remote = refl;
  no_key = refl;
  no_bearer = refl;
  with_member = refl;
  serving = omega arith;
}

pub port_1 : IsAddress "10.0.0.7" "1"
port_1 = record {
  open_host = refl;
  close_host = refl;
  colon_port = refl;
  open_port = refl;
  close_port = refl;
}

pub port_2 : IsAddress "10.0.0.7" "2"
port_2 = record {
  open_host = refl;
  close_host = refl;
  colon_port = refl;
  open_port = refl;
  close_port = refl;
}

third_refused : decisions 1000 2 [] (0 ∷ 400 ∷ 499 ∷ []) ≡ true ∷ true ∷ false ∷ []
third_refused = refl

-- Redis cannot be reached.
abbrev down : String → Args Fixed → (String → SetSlot) → Option (List Value) × (String → SetSlot)
down key args s = (none, s)

abbrev closed_policy : Running (String → SetSlot)
closed_policy = record { rl = new_rate_limit false 2 100; store = no_sets }

serve_all-outage_example :
    let (responses, after) =
      serve_all down resolver (sliding_limiter "rl") arrivals closed_policy in
    (map (λ r. r.status) responses ≡ 503 ∷ 503 ∷ 503 ∷ [])
    × (after.store
        ≡ (serve_all down resolver
            (sliding_limiter "rl")
            (arrival 0 "1" "a" ∷ arrival 400 "2" "b" ∷ [])
            closed_policy).1.store)
    × (after.rl.breaker ≡ tripped 400 closed_policy.rl.breaker)
unfolding new_breaker allow resolve api_key
serve_all-outage_example =
    serve_all-outage down resolver (sliding_limiter "rl") (arrival 0 "1" "a" ∷ [])
      (arrival 400 "2" "b") (arrival 499 "2" "c" ∷ []) closed_policy refl refl (λ store. refl, tt)
      (λ store. refl) (omega arith, tt)

abbrev tripped_gateway : Running (String → SetSlot)
tripped_gateway = record closed_policy {
  rl = record closed_policy.rl { breaker = tripped 400 closed_policy.rl.breaker };
}

handle_proxied-recovered_example :
    let (response, after) =
      handle_proxied server resolver (sliding_limiter "rl") (arrival 500 "2" "c") tripped_gateway in
    (response.status ≡ 200)
    × (after.store
        ≡ (server "rl:sliding_window:anon:10.0.0.7" (Args.sliding_args 500 1000 2 "c") no_sets).1)
    × (after.rl.breaker
        ≡ record tripped_gateway.rl.breaker { state = closed; failures = 0; probes = 0 })
unfolding new_breaker allow resolve api_key Script.sliding_window client_ip
handle_proxied-recovered_example =
    handle_proxied-recovered server resolver (sliding_limiter "rl") (arrival 500 "2" "c")
      (record {
        allowed = true;
        limit = 2;
        remaining = pos 1;
        retry_after_ms = pos 0;
        reset_after_ms = pos 1000;
      })
      tripped_gateway refl (omega arith) (omega arith) refl
