-- ===== src/Dashboard/Header.antt =====
-- The header of the dashboard: `renderHeader` of app.js.
use Prim.Native.Char.{code}
use ratelimit_gateway.Base.{
  String, Bool, true, false, [], ◌∷◌, if◌then◌else◌, ◌==◌, str_eq, template, prepend,
}
use ratelimit_gateway.Number.{Number}
use ratelimit_gateway.Dashboard.Stats.{Stats}
use ratelimit_gateway.Dashboard.Format.{format_count, format_duration}

-- The classes of the element `status` that the script sets and clears.
pub record StatusClasses : Type 0 where
  pub ok : Bool
  pub degraded : Bool
  pub down : Bool

pub record Header : Type 0 where
  pub algorithm : String
  pub upstream : String
  pub redis_addr : String
  pub fail_policy : String
  pub uptime : String
  pub errors : String
  pub breaker : String
  pub breaker_warn : Bool
  pub breaker_bad : Bool
  pub status : StatusClasses
  pub status_text : String

-- `s.replace("_", "-")` with a text as the pattern: the first occurrence alone.
unfoldable pub replace_underscore : String → String
replace_underscore String.[] = ""
replace_underscore (String.◌∷◌ c s) =
    if code c == b'_' then prepend "-" s else String.◌∷◌ c (replace_underscore s)

-- The status part: degraded where redis is unreachable, and healthy otherwise.
unfoldable pub render_status : Bool → Header → Header
render_status redis_healthy header =
    if redis_healthy
    then record header {
      status = record { ok = true; degraded = false; down = false };
      status_text = "healthy";
    }
    else record header {
      status = record { ok = false; degraded = true; down = false };
      status_text = "degraded — redis unreachable";
    }

module _ {ℓ} {N : Type ℓ} ⦃num : Number N⦄ where
  unfoldable pub render_header : Stats N → Header → Header
  render_header stats header = render_status stats.redis_healthy (record header {
    algorithm = stats.info.algorithm;
    upstream = template ("→ " ∷ stats.info.upstream ∷ []);
    redis_addr = stats.info.redis_addr;
    fail_policy = if stats.info.fail_open then "fail-open" else "fail-closed";
    uptime = format_duration stats.uptime_seconds;
    errors = format_count stats.errors;
    breaker = replace_underscore stats.breaker_state;
    breaker_warn = str_eq stats.breaker_state "half_open";
    breaker_bad = str_eq stats.breaker_state "open";
  })

-- What the failure handler of `poll` does to the header.
unfoldable pub show_unreachable : Header → Header
show_unreachable header = record header {
  status = record { ok = false; degraded = false; down = true };
  status_text = "gateway unreachable";
}
