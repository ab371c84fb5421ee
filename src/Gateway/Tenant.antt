-- ===== src/Gateway/Tenant.antt =====
-- The tenants: internal/tenant/tenant.go. A Go map is an association list with one entry for each
-- name, in the order in which it is walked. Limits, bursts and windows, in nanoseconds, are natural
-- numbers: the loader refuses negative limits and windows as it does zero,
-- and a negative burst counts as none for the limiter.
pub mod Accepted
pub mod Loaded
pub mod Sorted
pub mod Address
use Prim.Native.Char.{Char, code}
use Prim.Native.Nat.{Ordering}
use Prim.Native.String
use ratelimit_gateway.Base.{
  ℕ, ◌+◌, String, Bool, true, false, ◌&&◌, ◌||◌, not, Option, none, some, List, [], ◌∷◌, map,
  if◌then◌else◌, leb, ◌==◌, str_eq, template, Outcome, ok, err, ◌>>=◌, trim_func, cut, cut_prefix,
}
use ratelimit_gateway.Limiter.Redis.{Quota}

pub record Tier : Type 0 where
  pub name : String
  pub limit : ℕ
  pub window : ℕ
  pub burst : ℕ

abbrev pub quota : Tier → Quota
quota t = record { limit = t.limit; window = t.window; burst = t.burst }

pub record Tenant : Type 0 where
  pub id : String
  pub tier : Tier
  pub authenticated : Bool

pub record KeyEntry : Type 0 where
  pub tenant_id : String
  pub tier : String

pub record FileFormat : Type 0 where
  pub tiers : List (String × Tier)
  pub keys : List (String × KeyEntry)
  pub anonymous_tier : String

pub record Resolver : Type 0 where
  pub keys : List (String × Tenant)
  pub tiers : List (String × Tier)
  pub anon : Tier
  pub trust_forwarded_for : Bool

pub data LoadError : Type 0 where
  unreadable no_tiers : LoadError
  bad_tier bad_anonymous : String → LoadError
  bad_key : String → String → LoadError

abbrev pub lookup {ℓ} : {A : Type ℓ} → String → List (String × A) → Option A
lookup name [] = none
lookup name (e ∷ es) = let rest = lookup name es in if str_eq name e.0 then some e.1 else rest

-- The loop over the tiers.
abbrev pub check_tiers : List (String × Tier) → Outcome LoadError (List (String × Tier))
check_tiers [] = ok []
check_tiers (e ∷ es) =
    let rest = check_tiers es >>= λ checked. ok ((e.0, record (e.1) { name = e.0 }) ∷ checked) in
    if e.1.limit == 0 || e.1.window == 0 then err (bad_tier e.0) else rest

abbrev pub tier_or : LoadError → String → List (String × Tier) → Outcome LoadError Tier
tier_or error name tiers = elim (lookup name tiers) [
  | none ↦ err error
  | some tier ↦ ok (record tier { name = name })
]

-- The loop over the keys.
abbrev pub tenants_of :
    List (String × Tier) → List (String × KeyEntry) → Outcome LoadError (List (String × Tenant))
tenants_of tiers [] = ok []
tenants_of tiers (e ∷ es) = tier_or (bad_key e.1.tenant_id e.1.tier) e.1.tier tiers >>= λ tier.
    tenants_of tiers es >>= λ rest.
    ok ((e.0, record { id = e.1.tenant_id; tier = tier; authenticated = true }) ∷ rest)

abbrev pub some_tiers : List (String × Tier) → Outcome LoadError (List (String × Tier))
some_tiers [] = err no_tiers
some_tiers (e ∷ es) = check_tiers (e ∷ es)

-- `Load`; `none` for a file that cannot be read or parsed.
unfoldable pub load : Bool → Option FileFormat → Outcome LoadError Resolver
load trust none = err unreadable
load trust (some f) = some_tiers f.tiers >>= λ tiers.
    tier_or (bad_anonymous f.anonymous_tier) f.anonymous_tier f.tiers >>= λ anon.
    tenants_of f.tiers f.keys >>= λ keys.
    ok (record { keys = keys; tiers = tiers; anon = anon; trust_forwarded_for = trust })

-- `sort.Slice` by the names, which are different.
abbrev pub before : String → String → Bool
before a b = elim (String.compare a b) [ Ordering.lt ↦ true | _ ↦ false ]

abbrev pub insert_tier : Tier → List Tier → List Tier
insert_tier t [] = t ∷ []
insert_tier t (u ∷ us) =
    let later = insert_tier t us in if before u.name t.name then u ∷ later else t ∷ u ∷ us

abbrev pub sort_tiers : List (String × Tier) → List Tier
sort_tiers [] = []
sort_tiers (e ∷ es) = insert_tier e.1 (sort_tiers es)

-- A request: `req.Header.Get`, empty for a header that is not there, and the peer's address.
pub record Request : Type 0 where
  pub header : String → String
  pub remote_addr : String

-- `unicode.IsSpace`.
abbrev pub is_go_space : Char → Bool
is_go_space c =
    (leb 9 (code c) && leb (code c) 13)
    || code c == 32
    || code c == 0x85
    || code c == 0xa0
    || code c == 0x1680
    || (leb 0x2000 (code c) && leb (code c) 0x200a)
    || code c == 0x2028
    || code c == 0x2029
    || code c == 0x202f
    || code c == 0x205f
    || code c == 0x3000

abbrev pub trim_space : String → String
trim_space s = trim_func is_go_space s

abbrev pub bearer_of : Option String → String
bearer_of none = ""
bearer_of (some token) = trim_space token

unfoldable pub api_key : Request → String
api_key req =
    if str_eq (req.header "X-API-Key") ""
    then bearer_of (cut_prefix "Bearer " (req.header "Authorization"))
    else req.header "X-API-Key"

abbrev pub has_char : ℕ → String → Bool
has_char n String.[] = false
has_char n (String.◌∷◌ c s) = code c == n || has_char n s

-- `net.SplitHostPort`, `none` for an error: an address in brackets and a port, or a host and a port
-- without further colons or brackets.
abbrev pub after_bracket : String → Option String → Option (String × String)
after_bracket host none = none
after_bracket host (some String.[]) = none
after_bracket host (some (String.◌∷◌ c port)) =
    if code c == b':'
      && not (has_char b':' port)
      && not (has_char b']' port)
      && not (has_char b'[' port)
      && not (has_char b'[' host)
    then some (host, port)
    else none

abbrev pub plain_host : String → Option String → Option (String × String)
plain_host host none = none
plain_host host (some port) =
    if has_char b':' port
      || has_char b'[' host
      || has_char b']' host
      || has_char b'[' port
      || has_char b']' port
    then none
    else some (host, port)

abbrev pub split_host_port : String → Option (String × String)
split_host_port String.[] = none
split_host_port (String.◌∷◌ c s) =
    if code c == b'['
    then after_bracket (cut b']' s).0 (cut b']' s).1
    else plain_host (cut b':' (String.◌∷◌ c s)).0 (cut b':' (String.◌∷◌ c s)).1

abbrev pub remote_host : String → String
remote_host addr = elim (split_host_port addr) [ none ↦ addr | some both ↦ both.0 ]

-- The left-most entry of X-Forwarded-For, or the peer's host.
unfoldable pub client_ip : Resolver → Request → String
client_ip r req =
    let first = trim_space (cut b',' (req.header "X-Forwarded-For")).0 in
    let host = remote_host req.remote_addr in
    if r.trust_forwarded_for && not (str_eq first "") then first else host

unfoldable pub resolve : Resolver → Request → Tenant
resolve r req =
    let anonymous : Tenant = record {
      id = template ("anon:" ∷ client_ip r req ∷ []);
      tier = r.anon;
      authenticated = false;
    } in
    let known = lookup (api_key req) r.keys in
    if str_eq (api_key req) "" then anonymous else elim known [ none ↦ anonymous | some t ↦ t ]
