-- ===== src/Gateway/Tenant/Loaded.antt =====
-- The tenants of a configuration file: Load and then Resolve of internal/tenant/tenant.go.
use mathlib.Core.Path.{subst}
use ratelimit_gateway.Base.{
  ◌<◌, ◌≡◌, refl, ap, sym, ◌∙◌, String, Bool, true, Option, none, some, List, [], ◌∷◌, str_eq, ok,
  err, is_ok, Holds, Holds->>=, IsAny, Holds-IsAny, arith, Bool-cases, inl, inr, All,
}
use ratelimit_gateway.Gateway.Tenant.{
  Tier, Tenant, KeyEntry, FileFormat, Resolver, LoadError, Request, lookup, tier_or, tenants_of,
  some_tiers, load, resolve, api_key, client_ip, bad_key, bad_anonymous,
}
use ratelimit_gateway.Gateway.Tenant.Address.{
  resolve-by_key, tenant_or, tenant_of_key, anonymous_at,
}
use ratelimit_gateway.Gateway.Tenant.Accepted.{all_positive, is_valid, load-is_valid}

-- A tier of the file, by its name.
abbrev pub IsNamed : List (String × Tier) → Tier → Type 0
IsNamed tiers tier =
    (t : Tier) × (lookup tier.name tiers ≡ some t) × (tier ≡ record t { name = tier.name })

tier_or-IsNamed :
    (e : LoadError) (name : String) (tiers : List (String × Tier))
    → Holds (IsNamed tiers) (tier_or e name tiers)
tier_or-IsNamed e name tiers =
    (elim (lookup name tiers)
        as (λ found.
          lookup name tiers ≡ found
          → Holds (IsNamed tiers)
              (elim found [ none ↦ err e | some tier ↦ ok (record tier { name = name }) ])) [
                | none ↦ λ absent. tt
                | some t ↦ λ there. (t, there, refl)
              ])
      refl

tenants_of-IsNamed :
    (tiers : List (String × Tier)) (es : List (String × KeyEntry))
    → Holds (All (λ e. IsNamed tiers e.1.tier)) (tenants_of tiers es)
tenants_of-IsNamed tiers [] = tt
tenants_of-IsNamed tiers (e ∷ es) =
    Holds->>= (IsNamed tiers) _ (tier_or (bad_key e.1.tenant_id e.1.tier) e.1.tier tiers) _
      (tier_or-IsNamed (bad_key e.1.tenant_id e.1.tier) e.1.tier tiers)
      (λ tier named.
        Holds->>= (All (λ e. IsNamed tiers e.1.tier)) _ (tenants_of tiers es) _
          (tenants_of-IsNamed tiers es) (λ rest all. (named, all)))

-- Each tier that a resolver gives out is one of the file.
abbrev IsDrawn : FileFormat → Resolver → Type 0
IsDrawn f r = IsNamed f.tiers r.anon × All (λ e. IsNamed f.tiers e.1.tier) r.keys

load-IsDrawn : (trust : Bool) (f : FileFormat) → Holds (IsDrawn f) (load trust (some f))
unfolding load
load-IsDrawn trust f =
    Holds->>= IsAny _ (some_tiers f.tiers) _ (Holds-IsAny (some_tiers f.tiers)) (λ tiers u.
      Holds->>= (IsNamed f.tiers) _
        (tier_or (bad_anonymous f.anonymous_tier) f.anonymous_tier f.tiers) _
        (tier_or-IsNamed (bad_anonymous f.anonymous_tier) f.anonymous_tier f.tiers)
        (λ anon named.
          Holds->>= (All (λ e. IsNamed f.tiers e.1.tier)) _ (tenants_of f.tiers f.keys) _
            (tenants_of-IsNamed f.tiers f.keys) (λ keys all. (named, all))))

abbrev HoldsFor {ℓ} : {A : Type ℓ} → (A → Type 0) → Option A → Type 0
HoldsFor P none = Unit
HoldsFor P (some a) = P a

lookup-All {ℓ} :
    {A : Type ℓ} (P : A → Type 0) (name : String) (es : List (String × A))
    → All (λ e. P e.1) es
    → HoldsFor P (lookup name es)
lookup-All P name [] all = tt
lookup-All P name (e ∷ es) (h, hs) = elim (Bool-cases (str_eq name e.0)) [
  | inl here ↦ rw here h
  | inr later ↦ rw later (lookup-All P name es hs)
]

abbrev pub IsPositive : Tier → Type 0
IsPositive t = (0 < t.limit) × (0 < t.window)

all_positive-All :
    (es : List (String × Tier)) → all_positive es ≡ true → All (λ e. IsPositive e.1) es
all_positive-All [] h = tt
all_positive-All (e ∷ es) h = (ground arith, all_positive-All es (ground arith))

tenant_or-holds :
    (P : Tenant → Type 0) (t : Tenant) (known : Option Tenant)
    → P t
    → HoldsFor P known
    → P (tenant_or t known)
tenant_or-holds P t none h k = h
tenant_or-holds P t (some u) h k = k

tenant_of_key-IsNamed :
    (f : FileFormat) (r : Resolver) (key : String)
    → IsDrawn f r
    → HoldsFor (λ t. IsNamed f.tiers t.tier) (tenant_of_key r key)
tenant_of_key-IsNamed f r key (anon, keys) = elim (Bool-cases (str_eq key "")) [
  | inl absent ↦ rw absent tt
  | inr there ↦ rw there (lookup-All (λ t. IsNamed f.tiers t.tier) key r.keys keys)
]

resolve-IsNamed :
    (f : FileFormat) (r : Resolver) (req : Request)
    → IsDrawn f r
    → IsNamed f.tiers (resolve r req).tier
resolve-IsNamed f r req drawn = rw (resolve-by_key r req) (
    tenant_or-holds (λ t. IsNamed f.tiers t.tier) (anonymous_at r (client_ip r req))
      (tenant_of_key r (api_key req)) drawn.0 (tenant_of_key-IsNamed f r (api_key req) drawn))

IsNamed-IsPositive :
    (tiers : List (String × Tier)) (tier : Tier)
    → all_positive tiers ≡ true
    → IsNamed tiers tier
    → IsPositive tier
IsNamed-IsPositive tiers tier positive (t, there, same) =
    let found = lookup-All IsPositive tier.name tiers (all_positive-All tiers positive) in
    let sized : IsPositive t = subst (HoldsFor IsPositive) there found in
    subst IsPositive (sym same) sized

-- A caller whose tenant comes of a file that was loaded has a tier of the file, named as there,
-- with a limit and a window above zero.
pub resolve-load :
    (trust : Bool) (f : FileFormat) (r : Resolver) (req : Request)
    → load trust (some f) ≡ ok r
    → IsNamed f.tiers (resolve r req).tier × IsPositive (resolve r req).tier
resolve-load trust f r req loaded =
    let drawn : IsDrawn f r = subst (Holds (IsDrawn f)) loaded (load-IsDrawn trust f) in
    let valid : is_valid f ≡ true = sym (load-is_valid trust f) ∙ ap is_ok loaded in
    let named = resolve-IsNamed f r req drawn in
    (named, IsNamed-IsPositive f.tiers (resolve r req).tier (ground arith) named)

-- So has the tenant of the callers without a key.
pub anon-IsPositive :
    (trust : Bool) (f : FileFormat) (r : Resolver) → load trust (some f) ≡ ok r → IsPositive r.anon
anon-IsPositive trust f r loaded =
    let drawn : IsDrawn f r = subst (Holds (IsDrawn f)) loaded (load-IsDrawn trust f) in
    let valid : is_valid f ≡ true = sym (load-is_valid trust f) ∙ ap is_ok loaded in
    IsNamed-IsPositive f.tiers r.anon (ground arith) drawn.0

abbrev Trusts : Bool → Resolver → Type 0
Trusts trust r = r.trust_forwarded_for ≡ trust

load-Trusts : (trust : Bool) (f : FileFormat) → Holds (Trusts trust) (load trust (some f))
unfolding load
load-Trusts trust f =
    Holds->>= IsAny _ (some_tiers f.tiers) _ (Holds-IsAny (some_tiers f.tiers)) (λ tiers u.
      Holds->>= IsAny _ (tier_or (bad_anonymous f.anonymous_tier) f.anonymous_tier f.tiers) _
        (Holds-IsAny (tier_or (bad_anonymous f.anonymous_tier) f.anonymous_tier f.tiers))
        (λ anon u.
          Holds->>= IsAny _ (tenants_of f.tiers f.keys) _ (Holds-IsAny (tenants_of f.tiers f.keys))
            (λ keys u. refl)))

-- X-Forwarded-For is trusted as the configuration tells.
pub load-trust :
    (trust : Bool) (f : FileFormat) (r : Resolver)
    → load trust (some f) ≡ ok r
    → r.trust_forwarded_for ≡ trust
load-trust trust f r loaded = subst (Holds (Trusts trust)) loaded (load-Trusts trust f)
