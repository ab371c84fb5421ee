-- ===== src/Console/Meter.antt =====
-- The quota meter: `updateMeter`, `describeTier` and `startResetCountdown` of app.js.
use ratelimit_gateway.Base.{
  String, Bool, true, Option, none, some, [], ◌∷◌, if◌then◌else◌, ◌==◌, template,
}
use ratelimit_gateway.Number.{Number, le, max, min}
use ratelimit_gateway.Console.Result.{Result}

-- The part of the page that shows the meter, with `state.resetAt` and whether `state.resetTimer`
-- is set.
pub record Meter {ℓ} (N : Type ℓ) : Type ℓ where
  pub remaining : String
  pub remaining_class : String
  pub limit : String
  pub fill_width : String
  pub fill_class : String
  pub tier_badge : String
  pub tier_detail : String
  pub status_text : String
  pub status_class : String
  pub reset_at : Option N
  pub ticking : Bool
  pub reset_text : String

module _ {ℓ} {N : Type ℓ} ⦃num : Number N⦄ where
  open num use {nat, add, sub, mul, div, lt, eq, ceil, text}

  -- `x ?? other`, as a text.
  abbrev pub text_or : String → Option N → String
  text_or other none = other
  text_or other (some n) = text n

  unfoldable pub describe_tier : N → String
  describe_tier limit =
      if eq limit (nat 20)
      then "anonymous"
      else if eq limit (nat 150)
      then "free"
      else if eq limit (nat 10000)
      then "pro"
      else if eq limit (nat 200000)
      then "internal"
      else "custom"

  -- The share of the limit that is left, in per cent, between 0 and 100.
  unfoldable pub meter_percent : N → N → N
  meter_percent limit remaining =
      if lt (nat 0) limit
      then max (nat 0) (min (nat 100) (mul (div remaining limit) (nat 100)))
      else nat 0

  unfoldable pub meter_level : N → N → String
  meter_level remaining pct =
      if eq remaining (nat 0) then "empty" else if le pct (nat 25) then "low" else ""

  unfoldable pub meter_status : Result N → Meter N → Meter N
  meter_status result meter =
      if result.degraded
      then record meter {
        status_text = "degraded — quota not enforced";
        status_class = "meter-status warn";
      }
      else if result.status == 429
      then record meter {
        status_text =
            template ("throttled · retry in " ∷ text_or "?" result.retry_after ∷ "s" ∷ []);
        status_class = "meter-status warn";
      }
      else if result.status == 200
      then record meter { status_text = "allowed"; status_class = "meter-status ok" }
      else meter

  -- One ticker is enough: it is started once and never stopped.
  unfoldable pub start_reset_countdown : N → Option N → Meter N → Meter N
  start_reset_countdown now none meter = meter
  start_reset_countdown now (some seconds) meter = record meter {
    reset_at = some (add now (mul seconds (nat 1000)));
    ticking = true;
  }

  -- What the ticker does; it runs only after `resetAt` is set.
  unfoldable pub tick : N → Meter N → Meter N
  tick now meter = elim meter.reset_at [
    | none ↦ meter
    | some at ↦
        let left = max (nat 0) (ceil (div (sub at now) (nat 1000))) in
        record meter {
          reset_text =
              if lt (nat 0) left
              then template ("full quota restored in " ∷ text left ∷ "s" ∷ [])
              else "quota restored";
        }
  ]

  -- The figures and the bar for a limit.
  unfoldable pub show_quota : N → N → Meter N → Meter N
  show_quota limit remaining meter =
      let pct = meter_percent limit remaining in
      let level = meter_level remaining pct in
      record meter {
        remaining = text remaining;
        limit = text limit;
        fill_width = template (text pct ∷ "%" ∷ []);
        remaining_class = template ("meter-remaining " ∷ level ∷ []);
        fill_class = template ("meter-fill " ∷ level ∷ []);
        tier_badge = describe_tier limit;
        tier_detail = template ("limit " ∷ text limit ∷ " per window" ∷ []);
      }

  abbrev pub or_zero : Option N → N
  or_zero none = nat 0
  or_zero (some n) = n

  -- The number is the time of the call, `Date.now()`.
  unfoldable pub update_meter : N → Result N → Meter N → Meter N
  update_meter now result meter = elim result.limit [
    | none ↦ meter
    | some limit ↦
        start_reset_countdown now result.reset
          (meter_status result (show_quota limit (or_zero result.remaining) meter))
  ]
