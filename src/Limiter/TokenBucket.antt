-- ===== src/Limiter/TokenBucket.antt =====
-- internal/limiter/scripts/token_bucket.lua. The numbers of Lua are doubles, as those of JavaScript.
pub mod Bounds
pub mod Burst
use ratelimit_gateway.Base.{ℕ, String, Option, none, some, List, [], ◌∷◌, ◌&&◌, if◌then◌else◌, ◌==◌}
use ratelimit_gateway.Number.{Number, le}
use ratelimit_gateway.Limiter.Store.{Hashes}

-- What the script returns; Redis passes the whole numbers on as integers.
pub record BucketReply {κ} (N : Type κ) : Type κ where
  pub allowed : ℕ
  pub remaining : N
  pub retry_after_ms : N
  pub reset_after_ms : N

module _ {κ} {N : Type κ} ⦃num : Number N⦄ where
  open num use {nat, add, sub, mul, div, lt, floor, ceil}

  -- `math.max` and `math.min` of Lua.
  abbrev pub math_max : N → N → N
  math_max a b = if lt a b then b else a

  abbrev pub math_min : N → N → N
  math_min a b = if lt b a then b else a

  -- A key that is not there, or not whole, stands for a full bucket.
  abbrev pub bucket_of : N → N → Option N × Option N → N × N
  bucket_of burst now (some tokens, some updated) = (tokens, updated)
  bucket_of burst now (some tokens, none) = (burst, now)
  bucket_of burst now (none, updated) = (burst, now)

  unfoldable pub refill : N → N → N → N × N → N
  refill rate burst now bucket =
      let elapsed = math_max (nat 0) (sub now bucket.1) in
      math_min burst (add bucket.0 (mul (div elapsed (nat 1000)) rate))

  unfoldable pub take_tokens : N → N → N
  take_tokens requested tokens = if le requested tokens then sub tokens requested else tokens

  unfoldable pub full_after : N → N → N → N
  full_after rate burst tokens =
      if lt tokens burst && lt (nat 0) rate
      then ceil (mul (div (sub burst tokens) rate) (nat 1000))
      else nat 0

  module _ {ℓ} {S : Type ℓ} ⦃hashes : Hashes N S⦄ where
    open hashes use {hmget, hset, pexpire}

    -- The time of the server stands before the state, that of the caller after the burst.
    unfoldable pub token_bucket : String → N → N → N → N → ℕ → S → BucketReply N × S
    token_bucket key rate burst now requested at s =
        let filled = refill rate burst now (bucket_of burst now (hmget key at s)) in
        let tokens = take_tokens requested filled in
        let allowed : ℕ = if le requested filled then 1 else 0 in
        let reset_after = full_after rate burst tokens in
        (
          record {
            allowed = allowed;
            remaining = floor tokens;
            retry_after_ms =
                if (allowed == 0) && lt (nat 0) rate
                then ceil (mul (div (sub requested tokens) rate) (nat 1000))
                else nat 0;
            reset_after_ms = reset_after;
          },
          pexpire key (add reset_after (nat 1000)) at (hset key tokens now at s),
        )

    -- Calls for one token each, by the server's time and the caller's.
    unfoldable pub bucket_replies : String → N → N → List (ℕ × N) → S → List (BucketReply N)
    bucket_replies key rate burst [] s = []
    bucket_replies key rate burst (c ∷ cs) s =
        let (reply, after) = token_bucket key rate burst c.1 (nat 1) c.0 s in
        reply ∷ bucket_replies key rate burst cs after
