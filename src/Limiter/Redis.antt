-- ===== src/Limiter/Redis.antt =====
-- internal/limiter/limiter.go and redis.go: quotas, and `Allow`. Durations of a quota are
-- nanoseconds and not negative, those of a decision milliseconds; an int64 of nanoseconds holds
-- them for 292 years.
pub mod Allowed
use Prim.Native.Char.{Char, code}
use Prim.Native.String
use ratelimit_gateway.Base.{
  ℕ, suc, ◌+◌, ◌-◌, ◌*◌, ◌/◌, ◌%◌, String, Bool, true, false, ◌&&◌, ◌||◌, Option, none, some, List,
  [], ◌∷◌, if◌then◌else◌, leb, ltb, ◌==◌, str_eq, length, Outcome, ok, err, ◌>>=◌, template,
}
use ratelimit_gateway.Number.{Number}

pub data ℤ : Type 0 where
  pos : ℕ → ℤ
  negsuc : ℕ → ℤ

pub data Algorithm : Type 0 where
  token_bucket sliding_window fixed_window : Algorithm

pub record Quota : Type 0 where
  pub limit : ℕ
  pub window : ℕ
  pub burst : ℕ

abbrev pub burst_capacity : Quota → ℕ
burst_capacity q = if ltb 0 q.burst then q.burst else q.limit

pub record Decision : Type 0 where
  pub allowed : Bool
  pub limit : ℕ
  pub remaining : ℤ
  pub retry_after_ms : ℤ
  pub reset_after_ms : ℤ

pub data Error : Type 0 where
  invalid_quota no_member script_failed : Error
  wrong_length bad_field : ℕ → Error

-- An element of a reply: an int64 or an int, a float64 by its whole part, a string, or another
-- type.
pub data Value : Type 0 where
  integer real : ℤ → Value
  text : String → Value
  other : Value

-- The digits of a number, at least one, with what was read before.
abbrev pub parse_digits : ℕ → String → Option ℕ
parse_digits acc String.[] = some acc
parse_digits acc (String.◌∷◌ c s) =
    let rest = parse_digits (acc * 10 + (code c - b'0')) s in
    if leb b'0' (code c) && leb (code c) b'9' then rest else none

abbrev pub negative : ℕ → ℤ
negative n = if n == 0 then pos 0 else negsuc (n - 1)

abbrev pub in_range : ℕ → (ℕ → ℤ) → Option ℕ → Option ℤ
in_range bound sign none = none
in_range bound sign (some n) = if leb n bound then some (sign n) else none

abbrev pub max_int64 : ℕ
max_int64 = 9_223_372_036_854_775_807

abbrev pub unsigned : ℕ → (ℕ → ℤ) → String → Option ℤ
unsigned bound sign String.[] = none
unsigned bound sign (String.◌∷◌ c s) = in_range bound sign (parse_digits 0 (String.◌∷◌ c s))

-- `strconv.ParseInt(t, 10, 64)`.
abbrev pub parse_int : String → Option ℤ
parse_int String.[] = none
parse_int (String.◌∷◌ c s) =
    if code c == b'-'
    then unsigned (max_int64 + 1) negative s
    else if code c == b'+'
    then unsigned max_int64 pos s
    else unsigned max_int64 pos (String.◌∷◌ c s)

abbrev pub as_int64 : Value → Option ℤ
as_int64 (integer n) = some n
as_int64 (real n) = some n
as_int64 (text t) = parse_int t
as_int64 other = none

-- The loop over the fields; the number is that of the first one.
abbrev pub field_of : ℕ → Option ℤ → Outcome Error ℤ
field_of i none = err (bad_field i)
field_of i (some n) = ok n

abbrev pub is_one : ℤ → Bool
is_one (pos n) = n == 1
is_one (negsuc n) = false

abbrev pub decision_from : ℕ → List Value → Outcome Error Decision
decision_from limit (a ∷ b ∷ c ∷ d ∷ []) = field_of 0 (as_int64 a) >>= λ allowed.
    field_of 1 (as_int64 b) >>= λ remaining. field_of 2 (as_int64 c) >>= λ retry_after.
    field_of 3 (as_int64 d) >>= λ reset_after. ok (record {
      allowed = is_one allowed;
      limit = limit;
      remaining = remaining;
      retry_after_ms = retry_after;
      reset_after_ms = reset_after;
    })
decision_from limit vs = err (wrong_length (length vs))

abbrev pub read_reply : ℕ → Option (List Value) → Outcome Error Decision
read_reply limit none = err script_failed
read_reply limit (some vs) = decision_from limit vs

pub record RedisLimiter : Type 0 where
  pub alg : Algorithm
  pub prefix : String

-- `New`, without its options.
abbrev pub algorithm_of : String → Option Algorithm
algorithm_of name =
    if str_eq name "token_bucket"
    then some token_bucket
    else if str_eq name "sliding_window"
    then some sliding_window
    else if str_eq name "fixed_window"
    then some fixed_window
    else none

abbrev pub name_of : Algorithm → String
name_of token_bucket = "token_bucket"
name_of sliding_window = "sliding_window"
name_of fixed_window = "fixed_window"

abbrev pub redis_key : RedisLimiter → String → String
redis_key l key = template (l.prefix ∷ ":" ∷ name_of l.alg ∷ ":" ∷ key ∷ [])

abbrev pub window_ms : Quota → ℕ
window_ms q = q.window / 1_000_000

-- The arguments of a script.
pub data Args {κ} (N : Type κ) : Type κ where
  bucket_args : N → ℕ → ℕ → ℕ → Args N
  sliding_args : ℕ → ℕ → ℕ → String → Args N
  fixed_args : ℕ → ℕ → ℕ → Args N

module _ {κ} {N : Type κ} ⦃num : Number N⦄ where
  -- `q.Window.Seconds()`.
  abbrev pub seconds : ℕ → N
  seconds ns =
      num.add (num.nat (ns / 1_000_000_000))
        (num.div (num.nat (ns % 1_000_000_000)) (num.nat 1_000_000_000))

  abbrev pub rate_per_second : Quota → N
  rate_per_second q =
      if q.window == 0 then num.nat 0 else num.div (num.nat q.limit) (seconds q.window)

  -- The ceiling that is applied and the arguments; the member is what `uniqueMember` returns.
  abbrev pub args_of : Algorithm → ℕ → Option String → Quota → Outcome Error (ℕ × Args N)
  args_of token_bucket now member q =
      ok (burst_capacity q, bucket_args (rate_per_second q) (burst_capacity q) now 1)
  args_of sliding_window now none q = err no_member
  args_of sliding_window now (some member) q =
      ok (q.limit, sliding_args now (window_ms q) q.limit member)
  args_of fixed_window now member q = ok (q.limit, fixed_args now (window_ms q) q.limit)

  module _ {ℓ} {S : Type ℓ} (run : String → Args N → S → Option (List Value) × S) where
    abbrev pub run_with : String → Outcome Error (ℕ × Args N) → S → Outcome Error Decision × S
    run_with key (err e) s = (err e, s)
    run_with key (ok args) s = (read_reply args.0 (run key args.1 s).0, (run key args.1 s).1)

    -- The time is `l.now()` in milliseconds; `run` is the script of the algorithm.
    unfoldable pub allow :
        RedisLimiter → ℕ → Option String → String → Quota → S → Outcome Error Decision × S
    allow l now member key q s =
        let decided = run_with (redis_key l key) (args_of l.alg now member q) s in
        if q.limit == 0 || q.window == 0 then (err invalid_quota, s) else decided

    -- Calls for one key, by their times and members.
    unfoldable pub allow_all :
        RedisLimiter → String → Quota → List (ℕ × String) → S → List (Outcome Error Decision)
    allow_all l key q [] s = []
    allow_all l key q (c ∷ cs) s =
        let (decision, after) = allow l c.0 (some c.1) key q s in
        decision ∷ allow_all l key q cs after
