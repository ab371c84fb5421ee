-- ===== src/Server/Routes/Console.antt =====
-- The console under its path: it is reached there, and nothing of it is throttled.
use mathlib.Core.Path.{subst}
use text.Mathlib.TextEquality.{eq_iff}
use ratelimit_gateway.Base.{
  ◌||◌, if◌then◌else◌, Bool-cases, inl, inr, ◌≡◌, ◌≢◌, refl, ap, sym, ◌∙◌, String, Bool, true,
  false, Option, none, some, List, [], ◌∷◌, template, str_eq, str_eq_of_ne, prepend, ok, Tells,
  arith,
}
use ratelimit_gateway.Number.{Number}
use ratelimit_gateway.Limiter.Redis.{
  ℤ, Algorithm, token_bucket, sliding_window, fixed_window, RedisLimiter, Args, Value, algorithm_of,
  name_of,
}
use ratelimit_gateway.Gateway.Tenant.{Resolver}
use ratelimit_gateway.Console.Config as Page
use ratelimit_gateway.Console.Config.{Location, ConfigView, load_config, show_config}
use ratelimit_gateway.Server.Config.{Url, Config, Environment, is_disabled, load}
use ratelimit_gateway.Server.Config.Console.{IsSubtree, IsConsolePath}
use ratelimit_gateway.Server.Config.Loaded.{IsConfigured, IsBlamed, load-Tells}
use ratelimit_gateway.Server.Pipeline.{Running}
use ratelimit_gateway.Server.Routes.{
  redirect, clean_path, settings, console_route, route, console_config, Answer, answered, forwarded,
  sent_settings, sent_file, Visit, serve_route, serve,
}
use ratelimit_gateway.Server.Routes.Mounted.{is_bare, console_visit, route-prepend}

algorithm_of-name_of : (a : Algorithm) → algorithm_of (name_of a) ≡ some a
algorithm_of-name_of token_bucket = refl
algorithm_of-name_of sliding_window = refl
algorithm_of-name_of fixed_window = refl

-- The answer to the page's request for its settings.
abbrev pub settings_of : Answer → Option Page.Config
settings_of (sent_settings config) = some config
settings_of (answered response) = none
settings_of (forwarded response) = none
settings_of (sent_file path) = none

str_eq-name_of : (a : Algorithm) → str_eq (name_of a) "" ≡ false
str_eq-name_of token_bucket = refl
str_eq-name_of sliding_window = refl
str_eq-name_of fixed_window = refl

show_config-named :
    (location : Location) (config : Page.Config) (view : ConfigView)
    → str_eq config.algorithm "" ≡ false
    → let page = show_config location config view in
      let port = config.dashboard_port in
      (page.probe_label ≡ template ("→ " ∷ config.probe_path ∷ []))
      × (page.algorithm ≡ config.algorithm)
      × (page.link_hidden ≡ (if str_eq port "" then true else view.link_hidden))
      × (page.link_href ≡ (
          if str_eq port ""
          then view.link_href
          else template (location.protocol ∷ "//" ∷ location.hostname ∷ ":" ∷ port ∷ "/" ∷ [])))
show_config-named location config view named = elim (Bool-cases (str_eq config.dashboard_port "")) [
  | inl blank ↦ rw (blank, named) (refl, refl, refl, refl)
  | inr linked ↦ rw (linked, named) (refl, refl, refl, refl)
]

IsConsolePath-IsSubtree :
    (disabled : Bool) (path : String) → path ≢ "" → IsConsolePath disabled path → IsSubtree path
IsConsolePath-IsSubtree true path shown h = absurd (shown h)
IsConsolePath-IsSubtree false path shown h = h

module _ {κ ℓ} {N : Type κ} ⦃num : Number N⦄ {S : Type ℓ}
    (run : String → Args N → S → Option (List Value) × S) (cfg : Config) (resolver : Resolver)
    (limiter : RedisLimiter) (proper : cfg.console_path ≢ "/") where
  serve_console_visit :
      (method path rest : String) (v : Visit) (g : Running S)
      → (serve_route run cfg resolver limiter
          (console_visit cfg.console_path method path rest)
          v
          g).1
        ≡ g
  serve_console_visit method path rest v g = ground arith

  -- When the console's path starts and ends with a slash and is not a slash alone, a request under
  -- it, whatever its method and the rest of its path, leaves the middleware and the store as they
  -- were. If its path is clean or its method is CONNECT, it is the console's own routes that take it,
  -- by the method and the rest. Else it is redirected: to its clean path, with a slash after it if
  -- that is just what it lacks of the console's and it is not a health check.
  pub serve-console :
      (v : Visit) (rest : String) (g : Running S)
      → IsSubtree cfg.console_path
      → v.path ≡ prepend cfg.console_path rest
      → let clean = clean_path v.path in
        ((serve run cfg resolver limiter v g).1 ≡ g)
        × (route cfg.console_path v.method v.path ≡ (
            if str_eq v.method "CONNECT" || str_eq clean v.path
            then console_route v.method rest
            else redirect
                (if is_bare cfg.console_path v.method clean then prepend clean "/" else clean)))
  unfolding serve
  serve-console v rest g subtree at =
      let mount = cfg.console_path in
      let routed : route mount v.method v.path ≡ console_visit mount v.method v.path rest =
        subst (λ path. route mount v.method path ≡ console_visit mount v.method path rest) (sym at)
          (route-prepend mount v.method rest subtree proper) in
      (
        ap (λ r. (serve_route run cfg resolver limiter r v g).1) routed
            ∙ serve_console_visit v.method v.path rest v g,
        routed,
      )

  -- Under a loaded configuration whose console path is neither empty nor a slash alone, the request
  -- of the page's `loadConfig`, at a clean path, gets the settings that the gateway runs with, and
  -- the page takes those: the console's path, the path of its test requests, the dashboard's port,
  -- and the name of the limiter's algorithm. It shows the path of its test requests after an arrow,
  -- and that name; and it links to the dashboard on its own host at that port, or hides the link if
  -- there is none. The request leaves the middleware and the store as they were.
  pub load_config-served :
      (parse_url : String → Option Url) (parse_duration : String → Option ℤ) (e : Environment)
      (v : Visit) (g : Running S) (location : Location) (config : Page.Config) (view : ConfigView)
      → load parse_url parse_duration e ≡ ok cfg
      → cfg.console_path ≢ ""
      → v.method ≡ "GET"
      → v.path ≡ prepend cfg.console_path "config"
      → clean_path v.path ≡ v.path
      → let (answer, after) = serve run cfg resolver limiter v g in
        let (shown, page) = load_config location (settings_of answer) config view in
        let port = cfg.public_dashboard_port in
        (after ≡ g)
        × (shown.base_path ≡ cfg.console_path)
        × (shown.probe_path ≡ cfg.console_probe_path)
        × (shown.dashboard_port ≡ port)
        × (algorithm_of shown.algorithm ≡ some cfg.algorithm)
        × (page.probe_label ≡ template ("→ " ∷ cfg.console_probe_path ∷ []))
        × (page.algorithm ≡ name_of cfg.algorithm)
        × (page.link_hidden ≡ (if str_eq port "" then true else view.link_hidden))
        × (page.link_href ≡ (
            if str_eq port ""
            then view.link_href
            else template (location.protocol ∷ "//" ∷ location.hostname ∷ ":" ∷ port ∷ "/" ∷ [])))
  unfolding serve load_config console_config
  load_config-served parse_url parse_duration e v g location config view loaded shown get at clean =
      let configured : IsConfigured parse_url parse_duration e cfg =
        subst
          (Tells (IsConfigured parse_url parse_duration e) (IsBlamed parse_url parse_duration e))
          loaded (load-Tells parse_url parse_duration e) in
      let subtree =
        IsConsolePath-IsSubtree (is_disabled e) cfg.console_path shown configured.console in
      let routed : route cfg.console_path v.method v.path ≡ settings =
        (serve-console v "config" g subtree at).1
        ∙ rw (clean, (eq_iff v.path v.path).1 refl, get) refl in
      let probed = str_eq_of_ne cfg.console_probe_path "" configured.probe in
      let named = str_eq-name_of cfg.algorithm in
      let (labelled, titled, hidden, linked) =
        show_config-named location
          (record {
            base_path = cfg.console_path;
            probe_path = cfg.console_probe_path;
            dashboard_port = cfg.public_dashboard_port;
            algorithm = name_of cfg.algorithm;
          })
          view named in
      rw (routed, probed)
        (
          refl,
          refl,
          refl,
          refl,
          algorithm_of-name_of cfg.algorithm,
          labelled,
          titled,
          hidden,
          linked,
        )
