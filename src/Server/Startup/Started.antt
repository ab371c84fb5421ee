-- ===== src/Server/Startup/Started.antt =====
-- What a gateway that cmd/gateway/main.go has started was configured with.
use mathlib.Core.Path.{subst}
use ratelimit_gateway.Base.{
  ℕ, ◌*◌, ◌<◌, Bool-cases, eq_of_str_eq, ◌≡◌, refl, ap, sym, ◌∙◌, String, Bool, false, Option, none,
  some, if◌then◌else◌, str_eq, Outcome, ok, err, Tells, Holds, Holds->>=, IsAny, Holds-IsAny, inl,
  inr, arith,
}
use ratelimit_gateway.Limiter.Redis.{ℤ, Algorithm, sliding_window, algorithm_of}
use ratelimit_gateway.Gateway.Tenant as Tenant
use ratelimit_gateway.Gateway.Tenant.{Resolver, FileFormat, quota}
use ratelimit_gateway.Server.Config as Settings
use ratelimit_gateway.Server.Config.{Url, Config, Environment, getenv, env, parse_bool}
use ratelimit_gateway.Server.Config.Loaded.{IsConfigured, IsSetting, load-Tells}
use ratelimit_gateway.Server.Startup.{
  bad_config, bad_tenants, caused_by, Gateway, gateway_of, mount_console, start,
}

caused_by-Holds {ℓ κ μ} :
    {A : Type ℓ} {D : Type κ} {E : Type μ} (P : A → Type 0) (Q : D → Type 0) (f : D → E)
    (o : Outcome D A)
    → Tells P Q o
    → Holds P (caused_by f o)
caused_by-Holds P Q f (ok a) h = h
caused_by-Holds P Q f (err e) h = tt

caused_by-ok {ℓ κ μ} :
    {A : Type ℓ} {D : Type κ} {E : Type μ} (f : D → E) (o : Outcome D A)
    → Holds (λ a. o ≡ ok a) (caused_by f o)
caused_by-ok f (ok a) = refl
caused_by-ok f (err e) = tt

-- A resolver comes of a file that was read.
load-some :
    (trust : Bool) (found : Option FileFormat) (r : Resolver)
    → Tenant.load trust found ≡ ok r
    → (f : FileFormat) × (Tenant.load trust (some f) ≡ ok r)
unfolding Tenant.load
load-some trust none r loaded = ground arith
load-some trust (some f) r loaded = (f, loaded)

module _ (parse_url : String → Option Url) (parse_duration : String → Option ℤ)
    (file : String → Option FileFormat) (takes_pattern : String → Bool) where
  -- The gateway is that of a configuration and of a file that were loaded.
  pub record IsStarted {ℓ} (S : Type ℓ) (e : Environment) (store : S) (gateway : Gateway S)
      : Type ℓ where
    pub configured : IsConfigured parse_url parse_duration e gateway.cfg
    pub loaded :
        (f : FileFormat) × (Tenant.load gateway.cfg.trust_xff (some f) ≡ ok gateway.resolver)
    pub same : gateway ≡ gateway_of gateway.cfg gateway.resolver store

  pub start-IsStarted {ℓ} :
      {S : Type ℓ} (e : Environment) (store : S)
      → Holds (IsStarted S e store) (start parse_url parse_duration file takes_pattern e store)
  unfolding start gateway_of
  start-IsStarted {S = S} e store =
      Holds->>= (IsConfigured parse_url parse_duration e) (IsStarted S e store)
        (caused_by bad_config (Settings.load parse_url parse_duration e)) _
        (caused_by-Holds _ _ bad_config (Settings.load parse_url parse_duration e)
          (load-Tells parse_url parse_duration e))
        (λ cfg configured.
          let read = Tenant.load cfg.trust_xff (file cfg.tenants_path) in
          Holds->>= (λ r. read ≡ ok r) (IsStarted S e store) (caused_by bad_tenants read) _
            (caused_by-ok bad_tenants read)
            (λ resolver loaded.
              let mounted =
                mount_console parse_url parse_duration file takes_pattern cfg.console_path in
              Holds->>= IsAny (IsStarted S e store) mounted _ (Holds-IsAny mounted) (λ pattern any.
                record {
                  configured = configured;
                  loaded = load-some cfg.trust_xff (file cfg.tenants_path) resolver loaded;
                  same = refl;
                })))

abbrev value_of : Option String → String
value_of none = ""
value_of (some v) = v

some_injective {ℓ} : {A : Type ℓ} {a b : A} → some a ≡ some b → a ≡ b
some_injective same = cc

pub some_of_product : (ms window : ℕ) → window ≡ ms * 1_000_000 → 0 < window → 0 < ms
some_of_product ms window whole positive = omega arith

pub untrusted :
    (e : Environment) (trust : Bool)
    → parse_bool (env e "GATEWAY_TRUST_FORWARDED_FOR" "false") ≡ some false
    → IsSetting parse_bool e "GATEWAY_TRUST_FORWARDED_FOR" false trust
    → trust ≡ false
untrusted e trust refused (inl (blank, fallback)) = fallback
untrusted e trust refused (inr read) =
    let text = getenv e "GATEWAY_TRUST_FORWARDED_FOR" in
    elim (Bool-cases (str_eq text "")) [
      | inl blank ↦
          let nothing : parse_bool "" ≡ some trust =
            subst (λ t. parse_bool t ≡ some trust) (eq_of_str_eq text "" blank) read in
          ground arith
      | inr there ↦
          let kept : env e "GATEWAY_TRUST_FORWARDED_FOR" "false" ≡ text = rw there refl in
          some_injective (sym read ∙ ap parse_bool (sym kept) ∙ refused)
    ]

pub sliding :
    (e : Environment) (algorithm : Algorithm)
    → e "GATEWAY_ALGORITHM" ≡ some "sliding_window"
    → algorithm_of (env e "GATEWAY_ALGORITHM" "token_bucket") ≡ some algorithm
    → algorithm ≡ sliding_window
sliding e algorithm named read =
    let window : some sliding_window ≡ some algorithm =
      subst
        (λ found.
          algorithm_of (if str_eq (value_of found) "" then "token_bucket" else value_of found)
          ≡ some algorithm)
        named read in
    ground arith
