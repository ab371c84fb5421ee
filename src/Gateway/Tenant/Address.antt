-- ===== src/Gateway/Tenant/Address.antt =====
-- The address of an anonymous caller: clientIP and Resolve of internal/tenant/tenant.go, with
-- RemoteAddr as net/http writes it.
use Prim.Native.Char.{Char, code}
use ratelimit_gateway.Base.{
  ℕ, ◌≡◌, refl, ap, sym, ◌∙◌, String, true, false, Option, none, [], ◌∷◌, str_eq, template, some,
  ◌==◌, if◌then◌else◌, cut, prepend, arith, Option-cases, Bool-cases, inl, inr,
}
use ratelimit_gateway.Gateway.Tenant.{
  Resolver, Request, Tenant, has_char, split_host_port, remote_host, client_ip, api_key, resolve,
  lookup,
}

-- `net.JoinHostPort`, of which the server takes the peer's address.
abbrev pub join_host_port : String → String → String
join_host_port host port =
    if has_char b':' host
    then prepend "[" (prepend host (prepend "]:" port))
    else prepend host (prepend ":" port)

cut-prepend :
    (sep : ℕ) (host port : String) (c : Char)
    → has_char sep host ≡ false
    → (code c == sep) ≡ true
    → cut sep (prepend host (String.◌∷◌ c port)) ≡ (host, some port)
cut-prepend sep String.[] port c free here = rw here refl
cut-prepend sep (String.◌∷◌ d host) port c free here =
    let other : (code d == sep) ≡ false = ground arith in
    let later : has_char sep host ≡ false = ground arith in
    rw (cut-prepend sep host port c later here, other) refl

-- A host without brackets, and a port without colons and brackets.
pub record IsAddress (host port : String) : Type 0 where
  pub open_host : has_char b'[' host ≡ false
  pub close_host : has_char b']' host ≡ false
  pub colon_port : has_char b':' port ≡ false
  pub open_port : has_char b'[' port ≡ false
  pub close_port : has_char b']' port ≡ false

split_host_port-plain :
    (host port : String)
    → IsAddress host port
    → has_char b':' host ≡ false
    → split_host_port (prepend host (prepend ":" port)) ≡ some (host, port)
split_host_port-plain String.[] port h free = ground arith
split_host_port-plain (String.◌∷◌ c host) port h free =
    let first : (code c == b'[') ≡ false = let o = h.open_host in ground arith in
    rw (first, cut-prepend b':' (String.◌∷◌ c host) port ":" free refl) (ground arith)

pub split_host_port-join_host_port :
    (host port : String)
    → IsAddress host port
    → split_host_port (join_host_port host port) ≡ some (host, port)
split_host_port-join_host_port host port h = elim (Bool-cases (has_char b':' host)) [
  | inl colon ↦
      rw (colon, cut-prepend b']' host (prepend ":" port) "]" h.close_host refl) (ground arith)
  | inr free ↦ rw free (split_host_port-plain host port h free)
]

remote_host-join_host_port :
    (host port : String) → IsAddress host port → remote_host (join_host_port host port) ≡ host
remote_host-join_host_port host port h =
    rw (remote_host, split_host_port-join_host_port host port h) refl

-- The tenant of a known key.
abbrev pub tenant_of_key : Resolver → String → Option Tenant
tenant_of_key r key = let known = lookup key r.keys in if str_eq key "" then none else known

abbrev pub tenant_or : Tenant → Option Tenant → Tenant
tenant_or anonymous none = anonymous
tenant_or anonymous (some t) = t

abbrev pub anonymous_at : Resolver → String → Tenant
anonymous_at r host = record {
  id = template ("anon:" ∷ host ∷ []);
  tier = r.anon;
  authenticated = false;
}

pub resolve-by_key :
    (r : Resolver) (req : Request)
    → resolve r req ≡ tenant_or (anonymous_at r (client_ip r req)) (tenant_of_key r (api_key req))
unfolding resolve
resolve-by_key r req = elim (Option-cases (lookup (api_key req) r.keys)) [
  | inl unknown ↦ rw unknown (ground arith)
  | inr (t, known) ↦ rw known (ground arith)
]

api_key-same :
    (a b : Request)
    → a.header "X-API-Key" ≡ b.header "X-API-Key"
    → a.header "Authorization" ≡ b.header "Authorization"
    → api_key a ≡ api_key b
unfolding api_key
api_key-same a b same_key same_bearer = rw (same_key, same_bearer) refl

module _ (r : Resolver) (host : String) where
  client_ip-untrusted :
      (req : Request) (port : String)
      → r.trust_forwarded_for ≡ false
      → IsAddress host port
      → req.remote_addr ≡ join_host_port host port
      → client_ip r req ≡ host
  unfolding client_ip
  client_ip-untrusted req port untrusted h at =
      rw (untrusted, at) (remote_host-join_host_port host port h)

  -- When X-Forwarded-For is not to be trusted, two requests with the same keys from one host, of
  -- IP version 4 or 6, are of the same tenant, whatever ports they come from and whatever
  -- X-Forwarded-For says: the tenant of the key, or the anonymous one that is named by the host.
  pub resolve-same_host :
      (a b : Request) (p q : String)
      → r.trust_forwarded_for ≡ false
      → IsAddress host p
      → IsAddress host q
      → a.remote_addr ≡ join_host_port host p
      → b.remote_addr ≡ join_host_port host q
      → a.header "X-API-Key" ≡ b.header "X-API-Key"
      → a.header "Authorization" ≡ b.header "Authorization"
      → (resolve r a ≡ resolve r b)
        × (resolve r a ≡ tenant_or (anonymous_at r host) (tenant_of_key r (api_key a)))
  resolve-same_host a b p q untrusted good_p good_q from_p from_q same_key same_bearer =
      let at_a =
        resolve-by_key r a
        ∙ ap (λ ip. tenant_or (anonymous_at r ip) (tenant_of_key r (api_key a)))
            (client_ip-untrusted a p untrusted good_p from_p) in
      let at_b =
        resolve-by_key r b
        ∙ ap (λ ip. tenant_or (anonymous_at r ip) (tenant_of_key r (api_key b)))
            (client_ip-untrusted b q untrusted good_q from_q) in
      let same = api_key-same a b same_key same_bearer in
      (
        at_a ∙ ap (λ key. tenant_or (anonymous_at r host) (tenant_of_key r key)) same ∙ sym at_b,
        at_a,
      )
