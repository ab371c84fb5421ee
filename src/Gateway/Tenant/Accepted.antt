-- ===== src/Gateway/Tenant/Accepted.antt =====
-- Which configuration files are loaded: Load of internal/tenant/tenant.go.
use ratelimit_gateway.Base.{
  ◌≡◌, refl, ap, ◌∙◌, String, Bool, true, false, ◌&&◌, ◌||◌, not, Option, none, some, List, [], ◌∷◌,
  ◌==◌, ok, err, is_ok, is_ok->>=, is_ok->>=_ok, arith,
}
use ratelimit_gateway.Gateway.Tenant.{
  Tier, KeyEntry, FileFormat, LoadError, lookup, check_tiers, tier_or, tenants_of, some_tiers, load,
  bad_key, bad_anonymous,
}

abbrev pub is_there {ℓ} : {A : Type ℓ} → Option A → Bool
is_there none = false
is_there (some a) = true

abbrev pub all_positive : List (String × Tier) → Bool
all_positive [] = true
all_positive (e ∷ es) = not (e.1.limit == 0 || e.1.window == 0) && all_positive es

abbrev pub all_known : List (String × Tier) → List (String × KeyEntry) → Bool
all_known tiers [] = true
all_known tiers (e ∷ es) = is_there (lookup e.1.tier tiers) && all_known tiers es

abbrev pub is_empty {ℓ} : {A : Type ℓ} → List A → Bool
is_empty [] = true
is_empty (x ∷ xs) = false

-- A file that names some tiers, all with a limit and a window, and whose other names are of tiers.
abbrev pub is_valid : FileFormat → Bool
is_valid f =
    not (is_empty f.tiers)
    && all_positive f.tiers
    && (is_there (lookup f.anonymous_tier f.tiers) && all_known f.tiers f.keys)

tier_or-ok :
    (e : LoadError) (name : String) (tiers : List (String × Tier))
    → is_ok (tier_or e name tiers) ≡ is_there (lookup name tiers)
tier_or-ok e name tiers =
    elim (lookup name tiers)
      as (λ found.
        is_ok (elim found [ none ↦ err e | some tier ↦ ok (record tier { name = name }) ])
        ≡ is_there found) [ none ↦ refl | some t ↦ refl ]

check_tiers-ok : (es : List (String × Tier)) → is_ok (check_tiers es) ≡ all_positive es
check_tiers-ok [] = refl
check_tiers-ok (e ∷ es) =
    let later =
      is_ok->>=_ok (check_tiers es) (λ checked. (e.0, record (e.1) { name = e.0 }) ∷ checked) in
    let rest = check_tiers-ok es in ground arith

some_tiers-ok :
    (es : List (String × Tier)) → is_ok (some_tiers es) ≡ (not (is_empty es) && all_positive es)
some_tiers-ok [] = refl
some_tiers-ok (e ∷ es) = check_tiers-ok (e ∷ es)

tenants_of-ok :
    (tiers : List (String × Tier)) (es : List (String × KeyEntry))
    → is_ok (tenants_of tiers es) ≡ all_known tiers es
tenants_of-ok tiers [] = refl
tenants_of-ok tiers (e ∷ es) =
    is_ok->>= (tier_or (bad_key e.1.tenant_id e.1.tier) e.1.tier tiers) _ (all_known tiers es)
      (λ tier. is_ok->>=_ok (tenants_of tiers es) _ ∙ tenants_of-ok tiers es)
    ∙ ap (λ b. b && all_known tiers es) (tier_or-ok (bad_key e.1.tenant_id e.1.tier) e.1.tier tiers)

-- A file is loaded if and only if it is valid.
pub load-is_valid : (trust : Bool) (f : FileFormat) → is_ok (load trust (some f)) ≡ is_valid f
unfolding load
load-is_valid trust f =
    let known = tenants_of-ok f.tiers f.keys in
    let anonymous = tier_or-ok (bad_anonymous f.anonymous_tier) f.anonymous_tier f.tiers in
    is_ok->>= (some_tiers f.tiers) _
      (is_there (lookup f.anonymous_tier f.tiers) && all_known f.tiers f.keys)
      (λ tiers.
        is_ok->>= (tier_or (bad_anonymous f.anonymous_tier) f.anonymous_tier f.tiers) _
          (all_known f.tiers f.keys) (λ anon. is_ok->>=_ok (tenants_of f.tiers f.keys) _ ∙ known)
        ∙ ap (λ b. b && all_known f.tiers f.keys) anonymous)
    ∙ ap (λ b. b && (is_there (lookup f.anonymous_tier f.tiers) && all_known f.tiers f.keys))
        (some_tiers-ok f.tiers)
