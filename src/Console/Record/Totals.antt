-- ===== src/Console/Record/Totals.antt =====
-- The totals after any number of requests.
use ratelimit_gateway.Base.{ℕ, ◌+◌, ◌≤◌, ◌≡◌, Bool, List, [], ◌∷◌, ◌==◌, length, count, arith}
use ratelimit_gateway.Number.{Number}
use ratelimit_gateway.Console.Record.{Console, Timed, record_result, record_all}

module _ {ℓ} {N : Type ℓ} where
  abbrev pub answered_with : ℕ → Timed N → Bool
  answered_with status t = t.result.status == status

  count_disjoint :
      (ts : List (Timed N))
      → count (answered_with 200) ts + count (answered_with 429) ts ≤ length ts
  count_disjoint [] = omega arith
  count_disjoint (t ∷ ts) = ground (arith, count_disjoint ts)

module _ {ℓ} {N : Type ℓ} ⦃num : Number N⦄ where
  record_all-counts :
      (ts : List (Timed N)) (c : Console N)
      → let d = record_all ts c in
        (d.sent ≡ c.sent + length ts)
        × (d.allowed ≡ c.allowed + count (answered_with 200) ts)
        × (d.throttled ≡ c.throttled + count (answered_with 429) ts)
  unfolding record_all record_result
  record_all-counts [] c = omega arith
  record_all-counts (t ∷ ts) c = ground (arith, record_all-counts ts (record_result t c))

  -- From totals of zero, the console has sent as many requests as have finished, the allowed ones
  -- are those answered with 200, the throttled ones those answered with 429, and together they are
  -- no more than those sent.
  pub record_all-totals :
      (ts : List (Timed N)) (c : Console N)
      → (c.sent ≡ 0) × (c.allowed ≡ 0) × (c.throttled ≡ 0)
      → let d = record_all ts c in
        (d.sent ≡ length ts)
        × (d.allowed ≡ count (answered_with 200) ts)
        × (d.throttled ≡ count (answered_with 429) ts)
        × (d.allowed + d.throttled ≤ d.sent)
  record_all-totals ts c (s, a, t) =
      let (sent, allowed, throttled) = record_all-counts ts c in
      let disjoint = count_disjoint ts in (omega arith, omega arith, omega arith, omega arith)
