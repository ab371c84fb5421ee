-- ===== src/Server/Pipeline/Callers.antt =====
-- The requests of one caller of the gateway of cmd/gateway/main.go, and what passes.
use ratelimit_gateway.Base.{
  ℕ, ◌≡◌, ◌≢◌, refl, ap, ◌∙◌, String, Bool, false, not, Option, none, some, List, map,
  if◌then◌else◌, ◌==◌, arith,
}
use ratelimit_gateway.Http.{Response}
use ratelimit_gateway.Gateway.Breaker.{closed, new_breaker}
use ratelimit_gateway.Gateway.Tenant.{Tenant, Resolver, resolve, api_key}
use ratelimit_gateway.Gateway.Tenant.Address.{
  IsAddress, join_host_port, tenant_or, tenant_of_key, anonymous_at, resolve-same_host,
}
use ratelimit_gateway.Server.Pipeline.{Arrival}

abbrev pub member_of : Option String → String
member_of none = ""
member_of (some member) = member

-- The limiter's times and members of the requests.
abbrev pub calls_of : List Arrival → List (ℕ × String)
calls_of arrivals = map (λ (a : Arrival). (a.called, member_of a.member)) arrivals

-- The caller was not throttled.
abbrev pub has_passed : Response → Bool
has_passed response = not (response.status == 429)

pub has_passed-status :
    (response : Response) (allowed : Bool) (status : ℕ)
    → status ≢ 429
    → response.status ≡ (if allowed then status else 429)
    → has_passed response ≡ allowed
has_passed-status response allowed status serving told = ground arith

-- A request of a tenant, with a member, and an upstream that does not throttle by itself.
pub record IsRequest (resolver : Resolver) (t : Tenant) (a : Arrival) : Type 0 where
  pub resolved : resolve resolver a.request ≡ t
  pub with_member : a.member ≡ some (member_of a.member)
  pub serving : a.upstream.status ≢ 429

-- A request without a key from a host, with a member, and an upstream that does not throttle by
-- itself.
pub record IsAnonymous (host : String) (a : Arrival) : Type 0 where
  pub port : String
  pub address : IsAddress host port
  pub remote : a.request.remote_addr ≡ join_host_port host port
  pub no_key : a.request.header "X-API-Key" ≡ ""
  pub no_bearer : a.request.header "Authorization" ≡ ""
  pub with_member : a.member ≡ some (member_of a.member)
  pub serving : a.upstream.status ≢ 429

pub new_breaker-closed :
    (threshold cooldown : ℕ) → (new_breaker threshold cooldown 1).state ≡ closed
unfolding new_breaker
new_breaker-closed threshold cooldown = refl

api_key-absent : (a : Arrival) (host : String) → IsAnonymous host a → api_key a.request ≡ ""
unfolding api_key
api_key-absent a host h = rw (h.no_key, h.no_bearer) refl

pub IsAnonymous-IsRequest :
    (resolver : Resolver) (host : String) (a : Arrival)
    → resolver.trust_forwarded_for ≡ false
    → IsAnonymous host a
    → IsRequest resolver (anonymous_at resolver host) a
IsAnonymous-IsRequest resolver host a untrusted h = record {
  resolved =
      (resolve-same_host resolver host a.request a.request h.port h.port untrusted h.address
        h.address h.remote h.remote refl refl).1
      ∙ ap (λ key. tenant_or (anonymous_at resolver host) (tenant_of_key resolver key))
          (api_key-absent a host h);
  with_member = h.with_member;
  serving = h.serving;
}
