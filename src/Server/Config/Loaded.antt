-- ===== src/Server/Config/Loaded.antt =====
-- What the settings of internal/config/config.go are, and why they are refused.
use mathlib.Core.Path.{subst}
use ratelimit_gateway.Base.{
  ◌≡◌, ◌≢◌, ◌⊎◌, inl, inr, refl, sym, String, true, false, Option, none, some, str_eq, eq_of_str_eq,
  ne_of_str_eq, Outcome, ◌>>=◌, Tells, Tells->>=, Bool-cases, arith,
}
use ratelimit_gateway.Limiter.Redis.{ℤ, pos, Algorithm, token_bucket, algorithm_of, parse_int}
use ratelimit_gateway.Server.Config.{
  Url, Config, Kind, an_integer, a_boolean, a_duration, ConfigError, not_a, bad_upstream,
  needs_scheme_and_host, bad_algorithm, Environment, getenv, env, parsed, env_as, parse_bool,
  is_disabled, checked_url, upstream_of, algorithm_from, load,
}
use ratelimit_gateway.Server.Config.Console.{IsConsolePath, console_path_of-IsConsolePath}

-- The variable is absent or empty, and the setting has its default, or its text reads as the setting.
abbrev pub IsSetting : {A : Type 0} → (String → Option A) → Environment → String → A → A → Type 0
IsSetting parse e key fallback a =
    ((getenv e key ≡ "") × (a ≡ fallback)) ⊎ (parse (getenv e key) ≡ some a)

module _ (parse_url : String → Option Url) (parse_duration : String → Option ℤ) where
  abbrev pub IsUnread : Kind → String → Type 0
  IsUnread an_integer v = parse_int v ≡ none
  IsUnread a_boolean v = parse_bool v ≡ none
  IsUnread a_duration v = parse_duration v ≡ none

  -- An error names a variable that is set, and the text of it that does not read; for the upstream
  -- the text may be the default.
  abbrev pub IsBlamed : Environment → ConfigError → Type 0
  IsBlamed e (not_a kind key v) = (e key ≡ some v) × (v ≢ "") × IsUnread kind v
  IsBlamed e (bad_upstream raw) =
      (raw ≡ env e "GATEWAY_UPSTREAM_URL" "http://localhost:8081") × (parse_url raw ≡ none)
  IsBlamed e (needs_scheme_and_host raw) =
      (raw ≡ env e "GATEWAY_UPSTREAM_URL" "http://localhost:8081")
      × ((url : Url) × (parse_url raw ≡ some url) × ((url.scheme ≡ "") ⊎ (url.host ≡ "")))
  IsBlamed e (bad_algorithm name) =
      (e "GATEWAY_ALGORITHM" ≡ some name) × (name ≢ "") × (algorithm_of name ≡ none)

  pub record IsConfigured (e : Environment) (c : Config) : Type 0 where
    pub upstream :
        parse_url (env e "GATEWAY_UPSTREAM_URL" "http://localhost:8081") ≡ some c.upstream_url
    pub scheme : c.upstream_url.scheme ≢ ""
    pub host : c.upstream_url.host ≢ ""
    pub algorithm : algorithm_of (env e "GATEWAY_ALGORITHM" "token_bucket") ≡ some c.algorithm
    pub pool_size : IsSetting parse_int e "REDIS_POOL_SIZE" (pos 128) c.redis_pool_size
    pub threshold : IsSetting parse_int e "GATEWAY_BREAKER_THRESHOLD" (pos 5) c.breaker_thresh
    pub failure_policy : IsSetting parse_bool e "GATEWAY_FAIL_OPEN" true c.fail_open
    pub trust : IsSetting parse_bool e "GATEWAY_TRUST_FORWARDED_FOR" false c.trust_xff
    pub timeout :
        IsSetting parse_duration e "GATEWAY_LIMITER_TIMEOUT" (pos 50_000_000) c.limiter_timeout
    pub cooldown :
        IsSetting parse_duration e "GATEWAY_BREAKER_COOLDOWN" (pos 5_000_000_000) c.breaker_cooldown
    pub console : IsConsolePath (is_disabled e) c.console_path
    pub probe : c.console_probe_path ≢ ""

  getenv-some : (e : Environment) (key : String) → getenv e key ≢ "" → e key ≡ some (getenv e key)
  getenv-some e key set =
      (elim (e key)
          as (λ found.
            (elim found [ none ↦ "" | some v ↦ v ]) ≢ ""
            → found ≡ some (elim found [ none ↦ "" | some v ↦ v ])) [
              | none ↦ λ absent. absurd (absent refl)
              | some v ↦ λ there. refl
            ])
        set

  parsed-Tells :
      {A : Type 0} (P : A → Type 0) (Q : ConfigError → Type 0) (error : ConfigError) (a : Option A)
      → ((x : A) → a ≡ some x → P x)
      → (a ≡ none → Q error)
      → Tells P Q (parsed error a)
  parsed-Tells P Q error none reads unread = unread refl
  parsed-Tells P Q error (some x) reads unread = reads x refl

  env_as-Tells :
      {A : Type 0} (kind : Kind) (parse : String → Option A) (e : Environment) (key : String)
      (fallback : A)
      → ((v : String) → parse v ≡ none → IsUnread kind v)
      → Tells (IsSetting parse e key fallback) (IsBlamed e) (env_as kind parse e key fallback)
  unfolding env_as
  env_as-Tells kind parse e key fallback unread = elim (Bool-cases (str_eq (getenv e key) "")) [
    | inl absent ↦ rw absent (inl (eq_of_str_eq (getenv e key) "" absent, refl))
    | inr set ↦
        let some_text = ne_of_str_eq (getenv e key) "" set in
        rw set (
          parsed-Tells (IsSetting parse e key fallback) (IsBlamed e) (not_a kind key (getenv e key))
            (parse (getenv e key)) (λ x reads. inr reads)
            (λ none_read.
              (getenv-some e key some_text, some_text, unread (getenv e key) none_read)))
  ]

  bind :
      {A : Type 0} (e : Environment) (R : A → Type 0) (o : Outcome ConfigError A)
      (f : A → Outcome ConfigError Config)
      → Tells R (IsBlamed e) o
      → ((a : A) → R a → Tells (IsConfigured e) (IsBlamed e) (f a))
      → Tells (IsConfigured e) (IsBlamed e) (o >>= f)
  bind e R o f h k = Tells->>= R (IsConfigured e) (IsBlamed e) o f h k

  setting :
      {A : Type 0} (kind : Kind) (parse : String → Option A) (e : Environment) (key : String)
      (fallback : A) (f : A → Outcome ConfigError Config)
      → ((v : String) → parse v ≡ none → IsUnread kind v)
      → ((a : A) → IsSetting parse e key fallback a → Tells (IsConfigured e) (IsBlamed e) (f a))
      → Tells (IsConfigured e) (IsBlamed e) (env_as kind parse e key fallback >>= f)
  setting kind parse e key fallback f unread k =
      bind e (IsSetting parse e key fallback) (env_as kind parse e key fallback) f
        (env_as-Tells kind parse e key fallback unread) k

  env-some :
      (e : Environment) (key fallback : String)
      → str_eq fallback "" ≡ false
      → env e key fallback ≢ ""
  env-some e key fallback some_fallback = elim (Bool-cases (str_eq (getenv e key) "")) [
    | inl absent ↦ rw absent (ne_of_str_eq fallback "" some_fallback)
    | inr set ↦ rw set (ne_of_str_eq (getenv e key) "" set)
  ]

  abbrev IsUpstream : Environment → Url → Type 0
  IsUpstream e url =
      (parse_url (env e "GATEWAY_UPSTREAM_URL" "http://localhost:8081") ≡ some url)
      × (url.scheme ≢ "")
      × (url.host ≢ "")

  checked_url-Tells :
      (e : Environment) (url : Url)
      → parse_url (env e "GATEWAY_UPSTREAM_URL" "http://localhost:8081") ≡ some url
      → Tells
          (IsUpstream e)
          (IsBlamed e)
          (checked_url (env e "GATEWAY_UPSTREAM_URL" "http://localhost:8081") url)
  checked_url-Tells e url reads = elim (Bool-cases (str_eq url.scheme "")) [
    | inl blank ↦ rw blank (refl, (url, reads, inl (eq_of_str_eq url.scheme "" blank)))
    | inr schemed ↦ elim (Bool-cases (str_eq url.host "")) [
      | inl blank ↦ rw (schemed, blank) (refl, (url, reads, inr (eq_of_str_eq url.host "" blank)))
      | inr hosted ↦
          rw (schemed, hosted)
            (reads, ne_of_str_eq url.scheme "" schemed, ne_of_str_eq url.host "" hosted)
    ]
  ]

  upstream_of-Tells :
      (e : Environment) → Tells (IsUpstream e) (IsBlamed e) (upstream_of parse_url e)
  upstream_of-Tells e =
      let raw = env e "GATEWAY_UPSTREAM_URL" "http://localhost:8081" in
      Tells->>= (λ url. parse_url raw ≡ some url) (IsUpstream e) (IsBlamed e)
        (parsed (bad_upstream raw) (parse_url raw)) (checked_url raw)
        (parsed-Tells (λ url. parse_url raw ≡ some url) (IsBlamed e) (bad_upstream raw)
          (parse_url raw) (λ url reads. reads) (λ unread. (refl, unread)))
        (checked_url-Tells e)

  abbrev IsAlgorithm : Environment → Algorithm → Type 0
  IsAlgorithm e algorithm = algorithm_of (env e "GATEWAY_ALGORITHM" "token_bucket") ≡ some algorithm

  unread_algorithm :
      (e : Environment)
      → algorithm_of (env e "GATEWAY_ALGORITHM" "token_bucket") ≡ none
      → IsBlamed e (bad_algorithm (env e "GATEWAY_ALGORITHM" "token_bucket"))
  unread_algorithm e unread =
      let name = getenv e "GATEWAY_ALGORITHM" in
      elim (Bool-cases (str_eq name "")) [
        | inl absent ↦
            let fallback : env e "GATEWAY_ALGORITHM" "token_bucket" ≡ "token_bucket" =
              rw absent refl in
            let impossible : some token_bucket ≡ none =
              subst (λ n. algorithm_of n ≡ none) fallback unread in
            ground arith
        | inr set ↦
            let kept : env e "GATEWAY_ALGORITHM" "token_bucket" ≡ name = rw set refl in
            let some_text = ne_of_str_eq name "" set in
            subst (λ n. IsBlamed e (bad_algorithm n)) (sym kept)
              (
                getenv-some e "GATEWAY_ALGORITHM" some_text,
                some_text,
                subst (λ n. algorithm_of n ≡ none) kept unread,
              )
      ]

  algorithm_from-Tells : (e : Environment) → Tells (IsAlgorithm e) (IsBlamed e) (algorithm_from e)
  algorithm_from-Tells e =
      let name = env e "GATEWAY_ALGORITHM" "token_bucket" in
      parsed-Tells (IsAlgorithm e) (IsBlamed e) (bad_algorithm name) (algorithm_of name)
        (λ algorithm reads. reads) (unread_algorithm e)

  -- If the configuration is loaded, each checked setting has its default where its variable is
  -- absent or empty, and else is what the text of the variable reads as; the upstream has a scheme
  -- and a host, the probe path is not empty, and the console has no path if its variable is set to
  -- nothing, and else one that starts and ends with a slash. If it is not, the error quotes the text
  -- of a variable that does not read, or an upstream without a scheme or a host; the variable is set
  -- and not empty, but for the upstream, whose text may be the default.
  pub load-Tells :
      (e : Environment) → Tells (IsConfigured e) (IsBlamed e) (load parse_url parse_duration e)
  unfolding load
  load-Tells e =
      bind e (IsUpstream e) (upstream_of parse_url e) _ (upstream_of-Tells e)
        (λ url (read, schemed, hosted).
          bind e (IsAlgorithm e) (algorithm_from e) _ (algorithm_from-Tells e) (λ algorithm named.
            setting an_integer parse_int e "REDIS_POOL_SIZE" (pos 128) _ (λ v unread. unread)
              (λ size sized.
                setting an_integer parse_int e "GATEWAY_BREAKER_THRESHOLD" (pos 5) _
                  (λ v unread. unread)
                  (λ threshold counted.
                    setting a_boolean parse_bool e "GATEWAY_FAIL_OPEN" true _ (λ v unread. unread)
                      (λ fail_open policy.
                        setting a_boolean parse_bool e "GATEWAY_TRUST_FORWARDED_FOR" false _
                          (λ v unread. unread)
                          (λ trust trusted.
                            setting a_duration parse_duration e "GATEWAY_LIMITER_TIMEOUT"
                              (pos 50_000_000) _ (λ v unread. unread)
                              (λ timeout timed.
                                setting a_duration parse_duration e "GATEWAY_BREAKER_COOLDOWN"
                                  (pos 5_000_000_000) _ (λ v unread. unread)
                                  (λ cooldown cooled. record {
                                    upstream = read;
                                    scheme = schemed;
                                    host = hosted;
                                    algorithm = named;
                                    pool_size = sized;
                                    threshold = counted;
                                    failure_policy = policy;
                                    trust = trusted;
                                    timeout = timed;
                                    cooldown = cooled;
                                    console = console_path_of-IsConsolePath e;
                                    probe = env-some e "GATEWAY_CONSOLE_PROBE_PATH" "/get" refl;
                                  }))))))))
