-- ===== src/Limiter/TokenBucket/Bounds.antt =====
-- What a bucket of internal/limiter/scripts/token_bucket.lua can hold.
use ratelimit_gateway.Base.{
  ℕ, ◌≤◌, ◌≡◌, String, true, Option, none, some, List, [], ◌∷◌, All, Bool-cases, inl, inr, map,
}
use ratelimit_gateway.Number.{Number, le}
use ratelimit_gateway.Number.Laws.{IsArithmetic}
use ratelimit_gateway.Limiter.Store.{Hashes, IsHashes}
use ratelimit_gateway.Limiter.SlidingWindow.Log.{IsAscending}
use ratelimit_gateway.Limiter.TokenBucket.{
  math_max, math_min, bucket_of, refill, take_tokens, full_after, token_bucket, bucket_replies,
}

module _ {κ} {N : Type κ} ⦃num : Number N⦄ (arithmetic : IsArithmetic N) (rate burst : N)
    (rate_finite : num.is_finite rate ≡ true) (rate_pos : num.lt (num.nat 0) rate ≡ true)
    (burst_finite : num.is_finite burst ≡ true) (burst_nonneg : le (num.nat 0) burst ≡ true) where
  -- Not less than nothing, not more than the burst.
  abbrev pub IsWithin : N → Type 0
  IsWithin x = (le (num.nat 0) x ≡ true) × (le x burst ≡ true)

  full-IsWithin : IsWithin burst
  full-IsWithin = (burst_nonneg, arithmetic.finite_le burst burst_finite)

  elapsed_nonneg : (x : N) → le (num.nat 0) (math_max (num.nat 0) x) ≡ true
  elapsed_nonneg x = elim (Bool-cases (num.lt (num.nat 0) x)) [
    | inl some_time ↦ rw some_time (arithmetic.lt_le _ _ some_time)
    | inr no_time ↦ rw no_time arithmetic.zero_le
  ]

  math_min-IsWithin : (x : N) → le (num.nat 0) x ≡ true → IsWithin (math_min burst x)
  math_min-IsWithin x h = elim (Bool-cases (num.lt x burst)) [
    | inl less ↦ rw less (h, arithmetic.lt_le _ _ less)
    | inr full ↦ rw full full-IsWithin
  ]

  refill-IsWithin :
      (now : N) (bucket : N × N) → IsWithin bucket.0 → IsWithin (refill rate burst now bucket)
  unfolding refill
  refill-IsWithin now bucket h =
      let (finite, positive) = arithmetic.thousand in
      math_min-IsWithin _ (
        arithmetic.add_nonneg _ _ h.0 (
          arithmetic.mul_nonneg _ _
            (arithmetic.div_nonneg _ _ (elapsed_nonneg (num.sub now bucket.1)) finite positive)
            rate_finite rate_pos))

  take_tokens-IsWithin : (x : N) → IsWithin x → IsWithin (take_tokens (num.nat 1) x)
  unfolding take_tokens
  take_tokens-IsWithin x h = elim (Bool-cases (le (num.nat 1) x)) [
    | inl enough ↦
        let (rest, less) =
          arithmetic.sub_le x (num.nat 1) arithmetic.one.1 enough arithmetic.one.0 in
        rw enough (rest, arithmetic.le_trans _ _ _ less h.1)
    | inr few ↦ rw few h
  ]

  -- What the hash of a key may hold.
  abbrev pub IsSound : Option N × Option N → Type 0
  IsSound (some tokens, updated) = IsWithin tokens
  IsSound (none, updated) = Unit

  bucket_of-IsWithin :
      (now : N) (read : Option N × Option N) → IsSound read → IsWithin (bucket_of burst now read).0
  bucket_of-IsWithin now (some tokens, some updated) h = h
  bucket_of-IsWithin now (some tokens, none) h = full-IsWithin
  bucket_of-IsWithin now (none, some updated) h = full-IsWithin
  bucket_of-IsWithin now (none, none) h = full-IsWithin

  module _ {ℓ} {S : Type ℓ} ⦃hashes : Hashes N S⦄ (laws : IsHashes N S) (key : String) where
    abbrev pub IsSoundFrom : ℕ → S → Type 0
    IsSoundFrom at s = (t : ℕ) → at ≤ t → IsSound (hashes.hmget key t s)

    token_bucket-IsSound :
        (now : N) (last at : ℕ) (s : S)
        → IsSoundFrom last s
        → last ≤ at
        → let (reply, after) = token_bucket key rate burst now (num.nat 1) at s in
          IsWithin reply.remaining × IsSoundFrom at after
    unfolding token_bucket
    token_bucket-IsSound now last at s sound later =
        let filled = refill rate burst now (bucket_of burst now (hashes.hmget key at s)) in
        let within = take_tokens-IsWithin filled (
          refill-IsWithin now (bucket_of burst now (hashes.hmget key at s))
            (bucket_of-IsWithin now (hashes.hmget key at s) (sound at later))) in
        let tokens = take_tokens (num.nat 1) filled in
        let (rest, less) = arithmetic.floor_le tokens within.0 in
        (
          (rest, arithmetic.le_trans _ _ _ less within.1),
          λ t h.
              elim (laws.stored key tokens now
                (num.add (full_after rate burst tokens) (num.nat 1000)) at t s h) [
                  | inl there ↦ rw there within
                  | inr away ↦ rw away tt
                ],
        )

    bucket_replies_sound :
        (cs : List (ℕ × N)) (last : ℕ) (s : S)
        → IsSoundFrom last s
        → IsAscending last (map (λ c. c.0) cs)
        → All (λ r. IsWithin r.remaining) (bucket_replies key rate burst cs s)
    unfolding bucket_replies
    bucket_replies_sound [] last s sound ascending = tt
    bucket_replies_sound (c ∷ cs) last s sound (later, ascending) =
        let step = token_bucket-IsSound c.1 last c.0 s sound later in
        (
          step.0,
          bucket_replies_sound cs c.0 (token_bucket key rate burst c.1 (num.nat 1) c.0 s).1 step.1
              ascending,
        )

    -- From a store without the key, at times of the server that do not fall and whatever times the
    -- callers pass, also times that fall: no answer tells of less than nothing or more than the
    -- burst. The rate is finite and positive, the burst finite and not negative.
    pub bucket_replies-IsWithin :
        (cs : List (ℕ × N)) (s : S)
        → ((t : ℕ) → hashes.hmget key t s ≡ (none, none))
        → IsAscending 0 (map (λ c. c.0) cs)
        → All (λ r. IsWithin r.remaining) (bucket_replies key rate burst cs s)
    bucket_replies-IsWithin cs s absent ascending =
        bucket_replies_sound cs 0 s (λ t h. rw (absent t) tt) ascending
