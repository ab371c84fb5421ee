-- ===== src/Limiter/FixedWindow/Refinement.antt =====
-- internal/limiter/scripts/fixed_window.lua against the earlier requests of the window.
use mathlib.Core.Path.{ap₂}
use ratelimit_gateway.Base.{
  ℕ, ◌*◌, ◌≤◌, ◌<◌, ◌≡◌, refl, String, List, [], ◌∷◌, map, ◌==◌, count, All,
}
use ratelimit_gateway.Limiter.Store.{Counters, IsCounters}
use ratelimit_gateway.Limiter.FixedWindow.{fixed_window, fixed_replies}
use ratelimit_gateway.Limiter.FixedWindow.Log.{fixed_decisions, fixed_decisions-bound}
use ratelimit_gateway.Limiter.SlidingWindow.Log.{IsAscending, is_within, admitted}
use ratelimit_gateway.Limiter.FixedWindow.Invariant.{
  IsCounting, fixed_window-Step, absent-IsCounting,
}

module _ {ℓ} {S : Type ℓ} ⦃counters : Counters S⦄ (laws : IsCounters S) (text_of : ℕ → String)
    (bound : ℕ) (distinct : (i j : ℕ) → i < bound → j < bound → text_of i ≡ text_of j → i ≡ j)
    (prefix : String) (window : ℕ) (wide : 0 < window) where
  open laws use {value}

  fixed_replies-decisions :
      (limit : ℕ) (ts : List ℕ) (s : S) (earlier : List ℕ) (last : ℕ)
      → IsCounting laws text_of bound distinct prefix window wide s earlier last
      → IsAscending last ts
      → All (λ t. t < bound) ts
      → map (λ r. r.allowed == 1) (fixed_replies text_of prefix window limit ts s)
        ≡ fixed_decisions window limit earlier ts
  unfolding fixed_replies
  fixed_replies-decisions limit [] s earlier last counting ascending smalls = refl
  fixed_replies-decisions limit (t ∷ ts) s earlier last counting (later, ascending)
        (small, smalls) =
      let step =
        fixed_window-Step laws text_of bound distinct prefix window wide s earlier last t counting
          later small limit in
      ap₂ ◌∷◌ step.0 (
        fixed_replies-decisions limit ts (fixed_window text_of prefix t window limit s).1
          (t ∷ earlier) t step.1 ascending smalls)

  replies-log :
      (limit : ℕ) (ts : List ℕ) (s : S)
      → ((key : String) (t : ℕ) → value key t s ≡ 0)
      → IsAscending 0 ts
      → All (λ t. t < bound) ts
      → map (λ r. r.allowed == 1) (fixed_replies text_of prefix window limit ts s)
        ≡ fixed_decisions window limit [] ts
  replies-log limit ts s absent ascending smalls =
      fixed_replies-decisions limit ts s [] 0
        (absent-IsCounting laws text_of bound distinct prefix window wide s absent) ascending smalls

  -- From a store without counters, on requests at times that do not fall, below a bound for which
  -- the Lua texts of different numbers are different: the script admits exactly the requests with
  -- fewer than `limit` earlier ones in the same window, windows being counted from multiples of
  -- their length, and in any stretch of time as long as a window no more than twice the limit.
  pub fixed_replies-log :
      (limit : ℕ) (ts : List ℕ) (s : S) (start : ℕ)
      → ((key : String) (t : ℕ) → value key t s ≡ 0)
      → IsAscending 0 ts
      → All (λ t. t < bound) ts
      → let allowed = map (λ r. r.allowed == 1) (fixed_replies text_of prefix window limit ts s) in
        (allowed ≡ fixed_decisions window limit [] ts)
        × (count (is_within window start) (admitted ts allowed) ≤ 2 * limit)
  fixed_replies-log limit ts s start absent ascending smalls =
      rw (replies-log limit ts s absent ascending smalls)
        (refl, fixed_decisions-bound window limit start ts wide)
