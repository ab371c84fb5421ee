-- ===== src/Dashboard/Poll/Restart.antt =====
-- A gateway that restarted: its uptime begins again at zero, below that of the baseline.
use ratelimit_gateway.Base.{◌≡◌, refl, ap, ◌∙◌, true, false, some, List, [], ◌∷◌, All}
use ratelimit_gateway.Number.{Number, le}
use ratelimit_gateway.Number.Laws.{IsOrdered}
use ratelimit_gateway.Dashboard.Stats.{Stats}
use ratelimit_gateway.Dashboard.Chart.{Viewport}
use ratelimit_gateway.Dashboard.Poll.{
  State, Client, Reply, unreachable, refused, answered, min_sample_seconds, elapsed_since, polls,
  measure,
}
use ratelimit_gateway.Dashboard.Poll.States.{state_after, states_after, polls-state, measure-early}

module _ {ℓ} {N : Type ℓ} ⦃num : Number N⦄ where
  -- A reply that tells no uptime, or one that has not passed that of the baseline.
  abbrev pub IsBehind : Stats N → Reply N → Type 0
  IsBehind prev unreachable = Unit
  IsBehind prev (refused status) = Unit
  IsBehind prev (answered stats) =
      (num.is_finite stats.uptime_seconds ≡ true)
      × (le stats.uptime_seconds prev.uptime_seconds ≡ true)

  -- The baseline and the history, which a poll that takes no sample leaves alone.
  abbrev Keeps : State N → State N → Type ℓ
  Keeps s t = (t.previous ≡ s.previous) × (t.history ≡ s.history)

  module _ (laws : IsOrdered N) where
    too_early :
        (prev stats : Stats N)
        → num.is_finite prev.uptime_seconds ≡ true
        → num.is_finite stats.uptime_seconds ≡ true
        → le stats.uptime_seconds prev.uptime_seconds ≡ true
        → le min_sample_seconds (elapsed_since prev stats) ≡ false
    too_early prev stats f g h =
        laws.lt-not_le _ _ (laws.le_lt_trans _ _ _ (laws.sub_nonpos _ _ g f h) laws.half_pos)

    state_after-Keeps :
        (prev : Stats N) (r : Reply N) (s : State N)
        → s.previous ≡ some prev
        → num.is_finite prev.uptime_seconds ≡ true
        → IsBehind prev r
        → Keeps s (state_after r s)
    unfolding state_after
    state_after-Keeps prev unreachable s base f b = (refl, refl)
    state_after-Keeps prev (refused status) s base f b = (refl, refl)
    state_after-Keeps prev (answered stats) s base f (g, h) =
        let t : State N = record s { failures = 0 } in
        let e : (measure stats t s.previous).0 ≡ t =
          ap (λ base. (measure stats t base).0) base
          ∙ measure-early prev stats t (too_early prev stats f g h) in
        (ap (λ u. u.previous) e, ap (λ u. u.history) e)

    states_after-Keeps :
        (prev : Stats N) (rs : List (Reply N)) (s : State N)
        → s.previous ≡ some prev
        → num.is_finite prev.uptime_seconds ≡ true
        → All (IsBehind prev) rs
        → Keeps s (states_after rs s)
    unfolding states_after
    states_after-Keeps prev [] s base f bs = (refl, refl)
    states_after-Keeps prev (r ∷ rs) s base f (b, bs) =
        let (p, h) = state_after-Keeps prev r s base f b in
        let (q, k) = states_after-Keeps prev rs (state_after r s) (p ∙ base) f bs in (q ∙ p, k ∙ h)

    -- While the answers tell an uptime that has not passed that of the baseline, as they do from a
    -- restart on until the gateway has been up as long as before, however many polls there are, the
    -- script takes no sample: the baseline and the history stay what they are.
    pub polls-Keeps_restarted :
        (view : Viewport N) (prev : Stats N) (rs : List (Reply N)) (c : Client N)
        → c.state.previous ≡ some prev
        → num.is_finite prev.uptime_seconds ≡ true
        → All (IsBehind prev) rs
        → Keeps c.state (polls view rs c).state
    polls-Keeps_restarted view prev rs c base f bs =
        rw (polls-state view rs c) (states_after-Keeps prev rs c.state base f bs)
