-- ===== src/Console/Result.antt =====
-- What the console keeps of a response: `sendOne` and `numberOrNull` of app.js.
use ratelimit_gateway.Base.{ℕ, String, Bool, true, false, Option, none, some, if◌then◌else◌, str_eq}
use ratelimit_gateway.Number.{Number}
use ratelimit_gateway.Http.{Response}

-- `null` and a field that is missing are both `none`.
pub record Result {ℓ} (N : Type ℓ) : Type ℓ where
  pub status : ℕ
  pub limit : Option N
  pub remaining : Option N
  pub reset : Option N
  pub retry_after : Option N
  pub degraded : Bool
  pub error : Bool
  pub elapsed : N

abbrev pub is_true : Option String → Bool
is_true none = false
is_true (some s) = str_eq s "true"

module _ {ℓ} {N : Type ℓ} ⦃num : Number N⦄ where
  open num use {of_text, is_finite}

  unfoldable pub number_or_null : Option String → Option N
  number_or_null none = none
  number_or_null (some v) =
      if str_eq v "" then none else if is_finite (of_text v) then some (of_text v) else none

  unfoldable pub result_of : Response → N → Result N
  result_of res elapsed = record {
    status = res.status;
    limit = number_or_null (res.header "X-RateLimit-Limit");
    remaining = number_or_null (res.header "X-RateLimit-Remaining");
    reset = number_or_null (res.header "X-RateLimit-Reset");
    retry_after = number_or_null (res.header "Retry-After");
    degraded = is_true (res.header "X-RateLimit-Degraded");
    error = false;
    elapsed = elapsed;
  }

  -- The request failed: `none` stands for a `fetch` that throws.
  unfoldable pub sent_result : Option Response → N → Result N
  sent_result (some res) elapsed = result_of res elapsed
  sent_result none elapsed = record {
    status = 0;
    limit = none;
    remaining = none;
    reset = none;
    retry_after = none;
    degraded = false;
    error = true;
    elapsed = elapsed;
  }
