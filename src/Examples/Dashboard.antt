-- ===== src/Examples/Dashboard.antt =====
-- The dashboard, over whole thousandths.
use ratelimit_gateway.Base.{
  ℕ, ◌*◌, ◌≡◌, ◌≢◌, refl, String, Bool, true, false, some, List, [], ◌∷◌, All, arith,
}
use text.Mathlib.TextEquality.{eq_iff}
use ratelimit_gateway.Number.Fixed.{Fixed, pos, fixed_number, show, Fixed-IsOrdered}
use ratelimit_gateway.Dashboard.Stats.{TierStat, Stats}
use ratelimit_gateway.Dashboard.Format.{format_duration, escape_html}
use ratelimit_gateway.Dashboard.Format.Escape.{IsInert, decode_from, escape_html-attribute}
use ratelimit_gateway.Dashboard.Header.{StatusClasses}
use ratelimit_gateway.Dashboard.Tiers.{TierOptions, no_tiers, populate_tier_options}
use ratelimit_gateway.Dashboard.Tiers.Selection.{
  populate_tier_options_keeps, populate_tier_options_stale,
}
use ratelimit_gateway.Dashboard.Chart.{Viewport}
use ratelimit_gateway.Dashboard.Poll.{
  Client, Reply, unreachable, refused, answered, initial_state, polls, rates_between,
}
use ratelimit_gateway.Dashboard.Poll.History.{polls-history}
use ratelimit_gateway.Dashboard.Poll.Restart.{polls-Keeps_restarted}
use ratelimit_gateway.Dashboard.Poll.Status.{down_only, polls-status}
use ratelimit_gateway.Dashboard.Poll.Growth.{IsNonnegative, polls-IsNonnegative}

abbrev number : ℕ → Fixed
number n = pos (n * 1000)

abbrev free_tier : ℕ → TierStat Fixed
free_tier limit = record {
  name = "free";
  limit = number limit;
  window = "1s";
  burst = number 150;
  allowed = number 0;
  throttled = number 0;
}

-- A payload, with its uptime in milliseconds.
abbrev stats_at : ℕ → ℕ → ℕ → Bool → Stats Fixed
stats_at uptime allowed throttled healthy = record {
  info = record {
    algorithm = "token_bucket";
    upstream = "http://upstream";
    redis_addr = "redis:6379";
    fail_open = true;
  };
  uptime_seconds = pos uptime;
  redis_healthy = healthy;
  breaker_state = "closed";
  allowed = number allowed;
  throttled = number throttled;
  degraded = number 0;
  errors = number 0;
  tiers = some (free_tier 100 ∷ []);
  limiter = record { p50 = number 0; p95 = number 0; p99 = number 0; count = number 0 };
  upstream = record { p50 = number 0; p95 = number 0; p99 = number 0; count = number 0 };
}

abbrev view : Viewport Fixed
view = record {
  client_width = number 590;
  client_height = number 180;
  pixel_ratio = number 1;
  allowed_color = "#0f0";
  throttled_color = "#f00";
  grid_color = "#222";
}

abbrev connecting : StatusClasses
connecting = record { ok = false; degraded = false; down = false }

abbrev page : Client Fixed
page = record {
  state = initial_state;
  header = record {
    algorithm = "—";
    upstream = "—";
    redis_addr = "—";
    fail_policy = "—";
    uptime = "—";
    errors = "0";
    breaker = "—";
    breaker_warn = false;
    breaker_bad = false;
    status = connecting;
    status_text = "connecting";
  };
  kpis = record {
    allowed = "0";
    throttled = "0";
    degraded = "0";
    degraded_active = false;
    allowed_rate = "0";
    throttled_rate = "0";
    p50 = "—";
    p95 = "—";
    p99 = "—";
  };
  tier_list = no_tiers;
  tier_options = record { key = ""; select = record { options = []; value = "" } };
  chart = record {
    width = number 300;
    height = number 150;
    commands = [];
    peak = "peak 0/s";
    empty_hidden = false;
  };
}

-- A baseline, a poll that comes too early, a failure, and a sample of two seconds.
abbrev replies : List (Reply Fixed)
replies =
    answered (stats_at 1000 10 0 true)
    ∷ answered (stats_at 1100 60 0 true)
    ∷ refused 500
    ∷ answered (stats_at 3000 110 40 true)
    ∷ []

polls-history_example :
    (polls view replies page).state.history
    ≡ record { allowed = number 50; throttled = number 20 } ∷ []
unfolding rates_between
polls-history_example = polls-history view replies page refl

polls-status_example :
    (polls view
      (answered (stats_at 1000 0 0 false) ∷ unreachable ∷ refused 502 ∷ unreachable ∷ [])
      page).header.status
    ≡ down_only
polls-status_example =
    polls-status view
      (answered (stats_at 1000 0 0 false) ∷ unreachable ∷ refused 502 ∷ unreachable ∷ []) page refl

polls-IsNonnegative_run : All IsNonnegative (polls view replies page).state.history
polls-IsNonnegative_run =
    polls-IsNonnegative Fixed-IsOrdered view replies page
      ((refl, refl, refl, refl), ((refl, refl, refl, refl), (tt, ((refl, refl, refl, refl), tt))))
      refl

-- A page that has seen an hour of uptime.
abbrev after_an_hour : Client Fixed
after_an_hour = record page {
  state = record {
    previous = some (stats_at 3_600_000 9000 100 true);
    history = record { allowed = number 3; throttled = number 0 } ∷ [];
    failures = 0;
  };
}

polls-Keeps_restarted_example :
    let c =
      polls view
        (answered (stats_at 1000 5 0 true)
          ∷ unreachable
          ∷ answered (stats_at 1_800_000 7000 900 true)
          ∷ [])
        after_an_hour in
    (c.state.previous ≡ some (stats_at 3_600_000 9000 100 true))
    × (c.state.history ≡ record { allowed = number 3; throttled = number 0 } ∷ [])
polls-Keeps_restarted_example =
    polls-Keeps_restarted Fixed-IsOrdered view (stats_at 3_600_000 9000 100 true)
      (answered (stats_at 1000 5 0 true)
        ∷ unreachable
        ∷ answered (stats_at 1_800_000 7000 900 true)
        ∷ [])
      after_an_hour refl refl ((refl, refl), (tt, ((refl, refl), tt)))

escape_html-attribute_example :
    (decode_from 0 (escape_html "<img onerror='x'>") ≡ "<img onerror='x'>")
    × IsInert (escape_html "<img onerror='x'>")
escape_html-attribute_example = escape_html-attribute "<img onerror='x'>"

escaped : escape_html "a<b & \"c\"" ≡ "a&lt;b &amp; &quot;c&quot;"
unfolding escape_html
escaped = refl

abbrev pro_tier : TierStat Fixed
pro_tier = record {
  name = "pro";
  limit = number 5000;
  window = "1s";
  burst = number 10000;
  allowed = number 0;
  throttled = number 0;
}

abbrev chosen_pro : TierOptions
chosen_pro = record {
  key = "pro";
  select = record { options = record { value = "pro"; label = "pro" } ∷ []; value = "pro" };
}

pro_chosen : ◌≢◌ {A = String} "pro" ""
pro_chosen = ground (arith, eq_iff "pro" "")

pro_stays :
    (populate_tier_options (some (free_tier 100 ∷ pro_tier ∷ [])) chosen_pro).select.value ≡ "pro"
pro_stays = populate_tier_options_keeps (free_tier 100 ∷ pro_tier ∷ []) chosen_pro pro_chosen refl

populate_tier_options_stale_example :
    populate_tier_options
      (some (free_tier 500 ∷ []))
      (populate_tier_options (some (free_tier 100 ∷ [])) chosen_pro)
    ≡ populate_tier_options (some (free_tier 100 ∷ [])) chosen_pro
populate_tier_options_stale_example =
    populate_tier_options_stale (free_tier 100 ∷ []) (free_tier 500 ∷ []) chosen_pro refl

durations :
    (format_duration (number 59) ≡ "59s")
    × (format_duration (number 61) ≡ "1m 1s")
    × (format_duration (number 7384) ≡ "2h 3m")
unfolding format_duration show
durations = (refl, refl, refl)
