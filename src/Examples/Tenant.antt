-- ===== src/Examples/Tenant.antt =====
-- A file of tenants, and callers with and without keys.
use ratelimit_gateway.Base.{◌≡◌, refl, true, false, some, [], ◌∷◌, if◌then◌else◌, str_eq, ok, is_ok}
use ratelimit_gateway.Gateway.Tenant.{Tier, FileFormat, Resolver, Request, load, resolve, api_key}
use ratelimit_gateway.Gateway.Tenant.Address.{
  tenant_or, anonymous_at, tenant_of_key, resolve-same_host,
}
use ratelimit_gateway.Gateway.Tenant.Accepted.{is_valid, load-is_valid}
use ratelimit_gateway.Gateway.Tenant.Loaded.{IsNamed, IsPositive, resolve-load}

abbrev free : Tier
free = record { name = ""; limit = 5; window = 1_000_000_000; burst = 0 }

abbrev file : FileFormat
file = record {
  tiers = ("free", free) ∷ [];
  keys = ("secret", record { tenant_id = "acme"; tier = "free" }) ∷ [];
  anonymous_tier = "free";
}

abbrev resolver : Resolver
resolver = record {
  keys =
      ("secret", record { id = "acme"; tier = record free { name = "free" }; authenticated = true })
      ∷ [];
  tiers = ("free", record free { name = "free" }) ∷ [];
  anon = record free { name = "free" };
  trust_forwarded_for = false;
}

file-loads : load false (some file) ≡ ok resolver
unfolding load
file-loads = refl

abbrev plain_request : Request
plain_request = record { header = λ name. ""; remote_addr = "10.0.0.7:4711" }

-- The same host, with a forged address.
abbrev forged_request : Request
forged_request = record {
  header = λ name. if str_eq name "X-Forwarded-For" then "1.2.3.4" else "";
  remote_addr = "10.0.0.7:4712";
}

load-is_valid_example : is_ok (load true (some file)) ≡ is_valid file
load-is_valid_example = load-is_valid true file

resolve-load_example :
    IsNamed file.tiers (resolve resolver plain_request).tier
    × IsPositive (resolve resolver plain_request).tier
resolve-load_example = resolve-load false file resolver plain_request file-loads

resolve-same_host_example :
    (resolve resolver plain_request ≡ resolve resolver forged_request)
    × (resolve resolver plain_request
        ≡ tenant_or
            (anonymous_at resolver "10.0.0.7")
            (tenant_of_key resolver (api_key plain_request)))
resolve-same_host_example =
    resolve-same_host resolver "10.0.0.7" plain_request forged_request "4711" "4712" refl
      (record {
        open_host = refl;
        close_host = refl;
        colon_port = refl;
        open_port = refl;
        close_port = refl;
      })
      (record {
        open_host = refl;
        close_host = refl;
        colon_port = refl;
        open_port = refl;
        close_port = refl;
      })
      refl refl refl refl
