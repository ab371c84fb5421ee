-- ===== src/Server/Routes.antt =====
-- The routes of the proxy's listener in cmd/gateway/main.go, with the console of
-- internal/console/console.go, and how `http.ServeMux` of net/http takes a path that is not clean.
-- The path of a request is that of its URL, without percent escapes and the query; the console's
-- path has no wildcards in braces and is not that of another route. Of the headers those are kept
-- that the code sets by itself.
pub mod Mounted
pub mod Console
pub mod Proxied
use Prim.Native.Char.{code}
use ratelimit_gateway.Base.{
  ℕ, String, Bool, true, false, ◌&&◌, ◌||◌, Option, none, some, List, [], ◌∷◌, if◌then◌else◌,
  str_eq, not, prepend, cut_prefix, ◌==◌,
}
use ratelimit_gateway.Http.{Response}
use ratelimit_gateway.Number.{Number}
use ratelimit_gateway.Limiter.Redis.{RedisLimiter, Args, Value, name_of}
use ratelimit_gateway.Gateway.Middleware.{no_headers, set_header}
use ratelimit_gateway.Gateway.Tenant.{Resolver}
use ratelimit_gateway.Console.Config as Page
use ratelimit_gateway.Server.Config.{Config, starts_with_slash, ends_with_slash}
use ratelimit_gateway.Server.Pipeline.{Arrival, Running, handle_proxied}

-- A pattern for GET is one for HEAD too.
abbrev pub is_get : String → Bool
is_get method = str_eq method "GET" || str_eq method "HEAD"

pub data Route : Type 0 where
  health ready settings not_allowed not_found proxied : Route
  redirect asset : String → Route

-- The console's own multiplexer, after the prefix is stripped from the path.
abbrev pub console_route : String → String → Route
console_route method rest =
    if is_get method
    then if str_eq rest "config" then settings else asset (prepend "/" rest)
    else not_allowed

-- Without its last slash, the path of the console is redirected to the location with it.
abbrev pub mount_route : String → String → String → String → Route
mount_route console_path location method path =
    if not (ends_with_slash path) && str_eq (prepend path "/") console_path
    then redirect location
    else elim (cut_prefix console_path path) [
      | none ↦ proxied
      | some rest ↦ console_route method rest
    ]

abbrev pub match_route : String → String → String → String → Route
match_route console_path location method path =
    if is_get method && str_eq path "/healthz"
    then health
    else if is_get method && str_eq path "/readyz"
    then ready
    else if str_eq console_path ""
    then proxied
    else mount_route console_path location method path

-- `path.Clean` in `cleanPath` of net/http: the segments between the slashes, of which empty ones and
-- `.` are dropped, and `..` drops the one before it. They are kept with the last one first.
abbrev pub segments : String → String × List String
segments String.[] = ("", [])
segments (String.◌∷◌ c s) =
    let (first, rest) = segments s in
    if code c == b'/' then ("", first ∷ rest) else (String.◌∷◌ c first, rest)

abbrev pub drop_last : List String → List String
drop_last [] = []
drop_last (segment ∷ done) = done

abbrev pub push_segment : String → List String → List String
push_segment segment done =
    if str_eq segment "" || str_eq segment "."
    then done
    else if str_eq segment ".."
    then drop_last done
    else segment ∷ done

abbrev pub push_segments : List String → List String → List String
push_segments [] done = done
push_segments (segment ∷ rest) done = push_segments rest (push_segment segment done)

abbrev pub join_segments : List String → String
join_segments [] = ""
join_segments (segment ∷ done) = prepend (join_segments done) (prepend "/" segment)

-- `cleanPath`: a slash at the end is kept.
unfoldable pub clean_path : String → String
clean_path path =
    let (first, rest) = segments path in
    let joined = join_segments (push_segments (first ∷ rest) []) in
    if str_eq joined "" then "/" else if ends_with_slash path then prepend joined "/" else joined

-- A path that is not clean is redirected, unless what it matches is a redirection by itself.
abbrev pub redirect_unclean : String → String → Route → Route
redirect_unclean clean path (redirect location) = redirect location
redirect_unclean clean path matched = if str_eq clean path then matched else redirect clean

-- `ServeMux.Handler`: the path of a CONNECT is taken as it is, and no pattern takes one without a
-- slash at its front.
unfoldable pub route : String → String → String → Route
route console_path method path =
    let clean = clean_path path in
    let location = prepend clean "/" in
    if str_eq method "CONNECT"
    then if starts_with_slash path then match_route console_path location method path else not_found
    else redirect_unclean clean path (match_route console_path location method clean)

abbrev pub plain : ℕ → Response
plain status = record { status = status; header = no_headers }

-- The answer of `/readyz`: its policy, and whether Redis answers the ping.
abbrev pub ready_response : Bool → Bool → Response
ready_response fail_open true = plain 200
ready_response fail_open false =
    if fail_open
    then record { status = 200; header = set_header "X-Redis-Status" "unreachable" no_headers }
    else plain 503

-- `console.New` with what main.go gives to it, as handleConfig encodes it.
unfoldable pub console_config : Config → Page.Config
console_config cfg = record {
  base_path = cfg.console_path;
  probe_path = if str_eq cfg.console_probe_path "" then "/get" else cfg.console_probe_path;
  dashboard_port = cfg.public_dashboard_port;
  algorithm = name_of cfg.algorithm;
}

-- What is sent: a response of the listener itself or of the limited proxy, the console's settings, or
-- a file of the console.
pub data Answer : Type 0 where
  answered forwarded : Response → Answer
  sent_settings : Page.Config → Answer
  sent_file : String → Answer

-- A request to the listener, and whether Redis answers the ping of `/readyz`.
pub record Visit : Type 0 where
  pub method : String
  pub path : String
  pub reachable : Bool
  pub arrival : Arrival

module _ {κ ℓ} {N : Type κ} ⦃num : Number N⦄ {S : Type ℓ}
    (run : String → Args N → S → Option (List Value) × S) (cfg : Config) (resolver : Resolver)
    (limiter : RedisLimiter) where
  abbrev pub serve_route : Route → Visit → Running S → Answer × Running S
  serve_route health v g = (answered (plain 200), g)
  serve_route ready v g = (answered (ready_response cfg.fail_open v.reachable), g)
  serve_route settings v g = (sent_settings (console_config cfg), g)
  serve_route not_allowed v g = (answered (plain 405), g)
  serve_route not_found v g = (answered (plain 404), g)
  serve_route (redirect path) v g =
      (answered (record { status = 301; header = set_header "Location" path no_headers }), g)
  serve_route (asset path) v g = (sent_file path, g)
  serve_route proxied v g =
      let (response, after) = handle_proxied run resolver limiter v.arrival g in
      (forwarded response, after)

  unfoldable pub serve : Visit → Running S → Answer × Running S
  serve v g = serve_route (route cfg.console_path v.method v.path) v g

  -- Visits one after the other.
  unfoldable pub serve_visits : List Visit → Running S → List Answer × Running S
  serve_visits [] g = ([], g)
  serve_visits (v ∷ rest) g =
      let (answer, after) = serve v g in
      let (answers, last) = serve_visits rest after in (answer ∷ answers, last)
