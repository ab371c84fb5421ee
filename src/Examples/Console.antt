-- ===== src/Examples/Console.antt =====
-- The console, over whole thousandths.
use ratelimit_gateway.Base.{
  trim, trim_end, trim_start, ℕ, ◌+◌, ◌*◌, ◌≤◌, ◌≡◌, refl, true, false, none, some, List, [], ◌∷◌,
  map, take, last_n, length,
}
use mathlib.Core.List.{reverse}
use ratelimit_gateway.Number.Fixed.{Fixed, pos, fixed_number}
use ratelimit_gateway.Console.Config.{current_key, api_key_header}
use ratelimit_gateway.Console.Meter.{Meter, describe_tier}
use ratelimit_gateway.Console.Log.{row, children, initial_log, max_dots, max_log_rows}
use ratelimit_gateway.Console.Record.{Console, Timed, record_all}
use ratelimit_gateway.Console.Record.Totals.{record_all-totals}
use ratelimit_gateway.Console.Record.History.{record_all-history, timed_dot, timed_row}
use ratelimit_gateway.Console.Send.{
  Sender, initial_sender, send_burst, burst_answered, toggle_flood, flood_woken, Cause, burst_click,
  flood_click, burst_response, flood_response, flood_pause, Reach, click_send, click_flood,
  answer_burst, answer_flood, wake_flood, here, next,
}
use ratelimit_gateway.Console.Send.Bursts.{IsExclusive, Reach-IsExclusive}
use ratelimit_gateway.Console.Send.Floods.{
  Reach-loops_unbounded, Reach-floods_end, loops, flood_clicks,
}

abbrev number : ℕ → Fixed
number n = pos (n * 1000)

abbrev meter : Meter Fixed
meter = record {
  remaining = "—";
  remaining_class = "meter-remaining";
  limit = "—";
  fill_width = "";
  fill_class = "meter-fill";
  tier_badge = "anonymous";
  tier_detail = "send a request to discover your limit";
  status_text = "";
  status_class = "meter-status";
  reset_at = none;
  ticking = false;
  reset_text = "—";
}

abbrev page : Console Fixed
page = record {
  sent = 0;
  allowed = 0;
  throttled = 0;
  meter = meter;
  dots = [];
  log = initial_log;
  total_sent = "0";
  total_allowed = "0";
  total_throttled = "0";
}

abbrev answer : ℕ → Timed Fixed
answer status = record {
  result = record {
    status = status;
    limit = some (number 20);
    remaining = some (number 3);
    reset = some (number 1);
    retry_after = none;
    degraded = false;
    error = false;
    elapsed = number 4;
  };
  now = number 1000;
  time = "12:00:00";
}

abbrev answers : List (Timed Fixed)
answers = answer 200 ∷ answer 429 ∷ answer 503 ∷ []

record_all-totals_run :
    let d = record_all answers page in
    (d.sent ≡ 3) × (d.allowed ≡ 1) × (d.throttled ≡ 1) × (d.allowed + d.throttled ≤ d.sent)
record_all-totals_run = record_all-totals answers page (refl, refl, refl)

record_all-history_example :
    ((record_all answers page).dots ≡ last_n max_dots (map timed_dot answers))
    × (children (record_all answers page).log
        ≡ take max_log_rows (map row (reverse (map timed_row answers))))
record_all-history_example =
    record_all-history (answer 200) (answer 429 ∷ answer 503 ∷ []) page refl refl

-- A click on a burst of two, its first response, and a click that turns flood mode on.
abbrev two_sent : Sender
two_sent = toggle_flood (burst_answered [] 1 [] (send_burst 2 initial_sender))

two_sent-Reach : Reach initial_sender (flood_click ∷ burst_response ∷ burst_click ∷ []) two_sent
unfolding send_burst
two_sent-Reach = next (next (next here (click_send 2 refl)) (answer_burst [] 1 [] refl)) click_flood

Reach-IsExclusive_example :
    IsExclusive two_sent × (two_sent.issued ≡ 1 + (length two_sent.bursts + two_sent.waiting))
Reach-IsExclusive_example = Reach-IsExclusive two_sent-Reach

Reach-loops_unbounded_example :
    (causes : List Cause) × (s : Sender) × Reach initial_sender causes s
    × (s.flooding ≡ true)
    × (loops s ≡ 3)
    × (flood_clicks causes + 1 ≡ 6)
Reach-loops_unbounded_example = Reach-loops_unbounded 2

-- One loop waits, and flood mode has been turned off.
abbrev stopped : Sender
stopped = record initial_sender { waiting = 1; issued = 1 }

abbrev paused : Sender
paused = record stopped { waiting = 0; sleeping = 1 }

stopped-Reach : Reach stopped (flood_pause ∷ flood_response ∷ []) (flood_woken 0 paused)
stopped-Reach = next (next here (answer_flood 0 refl)) (wake_flood 0 refl)

Reach-floods_end_example :
    let t = flood_woken 0 paused in
    (t.flooding ≡ false) × (t.issued ≡ 1) × (2 + (2 * t.waiting + t.sleeping) ≡ 2)
Reach-floods_end_example = Reach-floods_end stopped refl stopped-Reach (tt, (tt, tt))

keys :
    (current_key "demo-free-key" "x" ≡ "demo-free-key")
    × (current_key "__custom" "  my key " ≡ "my key")
    × (api_key_header "__custom" "   " ≡ none)
unfolding current_key api_key_header trim trim_end trim_start
keys = (refl, refl, refl)

tiers : (describe_tier (number 150) ≡ "free") × (describe_tier (number 100) ≡ "custom")
unfolding describe_tier
tiers = (refl, refl)
