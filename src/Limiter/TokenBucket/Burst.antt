-- ===== src/Limiter/TokenBucket/Burst.antt =====
-- A burst at one time against a full bucket: internal/limiter/scripts/token_bucket.lua.
use mathlib.Core.Path.{ap₂}
use ratelimit_gateway.Base.{
  ℕ, zero, suc, ◌-◌, ◌≤◌, ◌≡◌, refl, ap, ◌∙◌, String, true, none, List, [], ◌∷◌, map, if◌then◌else◌,
  ltb, leb, ◌&&◌, Bool-cases, inl, inr, arith,
}
use ratelimit_gateway.Number.{Number, le}
use ratelimit_gateway.Number.Laws.{IsArithmetic, IsExact, max_exact}
use ratelimit_gateway.Limiter.Store.{Hashes, IsHashes}
use ratelimit_gateway.Limiter.TokenBucket.{
  bucket_of, refill, take_tokens, full_after, token_bucket, bucket_replies,
}

abbrev pub same_calls {κ} : {N : Type κ} → ℕ → ℕ → N → List (ℕ × N)
same_calls zero at now = []
same_calls (suc n) at now = (at, now) ∷ same_calls n at now

leb_of_le : (m n : ℕ) → m ≤ n → leb m n ≡ true
leb_of_le m n h = ground arith

module _ {κ} {N : Type κ} ⦃num : Number N⦄ where
  -- What a counter of tokens answers to some calls: whether each is admitted, and what is left.
  abbrev pub countdown : ℕ → ℕ → List (ℕ × N)
  countdown tokens zero = []
  countdown zero (suc calls) = (0, num.nat 0) ∷ countdown zero calls
  countdown (suc tokens) (suc calls) = (1, num.nat tokens) ∷ countdown tokens calls

  module _ (arithmetic : IsArithmetic N) (exact : IsExact N) (rate now : N) (b : ℕ)
      (rate_finite : num.is_finite rate ≡ true) (rate_pos : num.lt (num.nat 0) rate ≡ true)
      (now_finite : num.is_finite now ≡ true) (small : b ≤ max_exact) where
    le_nat : (m n : ℕ) → m ≤ max_exact → n ≤ max_exact → le (num.nat m) (num.nat n) ≡ leb m n
    le_nat m n h k = let l = exact.lt_nat m n h k in let e = exact.eq_nat m n h k in ground arith

    refill_now : (k : ℕ) → k ≤ b → refill rate (num.nat b) now (num.nat k, now) ≡ num.nat k
    unfolding refill
    refill_now k h =
        let l = exact.lt_nat k b (omega arith) small in
        let z = exact.lt_nat 0 0 (omega arith) (omega arith) in
        rw
          (
            exact.sub_self now now_finite,
            z,
            exact.div_zero,
            exact.mul_zero rate rate_finite rate_pos,
            exact.add_zero k,
            l,
          )
          (elim (Bool-cases (ltb k b)) [
            | inl less ↦ rw less refl
            | inr full ↦ let e : b ≡ k = ground arith in rw full (ap num.nat e)
          ])

    -- What is left of whole tokens after a call.
    abbrev left : ℕ → ℕ
    left zero = zero
    left (suc k) = k

    abbrev passed : ℕ → ℕ
    passed zero = 0
    passed (suc k) = 1

    left-le : (k : ℕ) → k ≤ b → left k ≤ b
    left-le zero h = h
    left-le (suc k) h = omega arith

    take_now : (k : ℕ) → k ≤ b → take_tokens (num.nat 1) (num.nat k) ≡ num.nat (left k)
    unfolding take_tokens
    take_now zero h = rw (le_nat 1 0 (omega arith) (omega arith)) refl
    take_now (suc k) h =
        let e : suc k - 1 ≡ k = omega arith in
        let enough : leb 1 (suc k) ≡ true = ground arith in
        rw (le_nat 1 (suc k) (omega arith) (omega arith), enough)
          (exact.sub_nat (suc k) 1 (omega arith) (omega arith) ∙ ap num.nat e)

    admitted_now : (k : ℕ) → k ≤ b → (if le (num.nat 1) (num.nat k) then 1 else 0) ≡ passed k
    admitted_now zero h = rw (le_nat 1 0 (omega arith) (omega arith)) refl
    admitted_now (suc k) h =
        let enough : leb 1 (suc k) ≡ true = ground arith in
        rw (le_nat 1 (suc k) (omega arith) (omega arith), enough) refl

    zero_le_nat : (k : ℕ) → k ≤ max_exact → le (num.nat 0) (num.nat k) ≡ true
    zero_le_nat k h = le_nat 0 k (omega arith) h ∙ ground arith

    -- The time to live is a second at least.
    full_after-nonneg :
        (k : ℕ) → k ≤ b → le (num.nat 0) (full_after rate (num.nat b) (num.nat k)) ≡ true
    unfolding full_after
    full_after-nonneg k h =
        elim (Bool-cases (num.lt (num.nat k) (num.nat b) && num.lt (num.nat 0) rate)) [
          | inr full ↦ rw full arithmetic.zero_le
          | inl less ↦
              let below = le_nat k b (omega arith) small ∙ leb_of_le k b h in
              let (rest, _) =
                arithmetic.sub_le (num.nat b) (num.nat k) (zero_le_nat k (omega arith)) below
                  (exact.finite_nat k (omega arith)) in
              let (finite, positive) = arithmetic.thousand in
              rw less (
                arithmetic.ceil_nonneg _ (
                  arithmetic.mul_nonneg _ _ (arithmetic.div_nonneg _ _ rest rate_finite rate_pos)
                    finite positive))
        ]

    ttl-le :
        (k : ℕ)
        → k ≤ b
        → le (num.nat 1000) (num.add (full_after rate (num.nat b) (num.nat k)) (num.nat 1000))
          ≡ true
    ttl-le k h = arithmetic.add_le _ _ (full_after-nonneg k h) arithmetic.thousand.0

    module _ {ℓ} {S : Type ℓ} ⦃hashes : Hashes N S⦄ (laws : IsHashes N S) (key : String)
        (at : ℕ) where
      -- One call while the bucket holds this number of tokens.
      token_bucket_now :
          (k : ℕ) (s : S)
          → k ≤ b
          → bucket_of (num.nat b) now (hashes.hmget key at s) ≡ (num.nat k, now)
          → let (reply, after) = token_bucket key rate (num.nat b) now (num.nat 1) at s in
            (reply.allowed ≡ passed k)
            × (reply.remaining ≡ num.nat (left k))
            × (bucket_of (num.nat b) now (hashes.hmget key at after) ≡ (num.nat (left k), now))
      unfolding token_bucket
      token_bucket_now k s h held =
          let refilled : refill rate (num.nat b) now
                (bucket_of (num.nat b) now (hashes.hmget key at s))
              ≡ num.nat k =
            ap (refill rate (num.nat b) now) held ∙ refill_now k h in
          let smaller : left k ≤ b = left-le k h in
          rw (refilled, take_now k h)
            (
              admitted_now k h,
              exact.floor_nat (left k) (omega arith),
              ap (bucket_of (num.nat b) now)
                  (laws.stored_now key (num.nat (left k)) now _ at s (ttl-le (left k) smaller)),
            )

      replies_countdown :
          (n k : ℕ) (s : S)
          → k ≤ b
          → bucket_of (num.nat b) now (hashes.hmget key at s) ≡ (num.nat k, now)
          → map
              (λ r. (r.allowed, r.remaining))
              (bucket_replies key rate (num.nat b) (same_calls n at now) s)
            ≡ countdown k n
      unfolding bucket_replies
      replies_countdown zero k s h held = refl
      replies_countdown (suc n) zero s h held =
          let (a, r, next) = token_bucket_now zero s h held in
          ap₂ ◌∷◌ (ap₂ (λ x y. (x, y)) a r) (replies_countdown n zero _ h next)
      replies_countdown (suc n) (suc k) s h held =
          let (a, r, next) = token_bucket_now (suc k) s h held in
          ap₂ ◌∷◌ (ap₂ (λ x y. (x, y)) a r) (replies_countdown n k _ (omega arith) next)

      -- Of any number of calls at one time, on a store without the key, exactly the first `b` are
      -- admitted, and the answers count the tokens down. The burst is a whole number up to 2 ^ 53,
      -- the rate is finite and positive, and the time is finite.
      pub bucket_replies-countdown :
          (n : ℕ) (s : S)
          → hashes.hmget key at s ≡ (none, none)
          → map
              (λ r. (r.allowed, r.remaining))
              (bucket_replies key rate (num.nat b) (same_calls n at now) s)
            ≡ countdown b n
      bucket_replies-countdown n s absent =
          replies_countdown n b s (omega arith) (ap (bucket_of (num.nat b) now) absent)
