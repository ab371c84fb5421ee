-- ===== src/Gateway/Simulate/Counts.antt =====
-- What an answer of the simulator holds.
use ratelimit_gateway.Base.{
  ℕ, zero, suc, ◌+◌, ◌≤◌, ◌≡◌, refl, sym, ap, ◌∙◌, true, false, Option, none, some, List, [], ◌∷◌,
  ◌++◌, Option-cases, inl, inr, length, length-append, arith, String,
}
use mathlib.Core.Option.{some-injective}
use ratelimit_gateway.Gateway.Simulate.{
  Decision, SimulateResult, Tally, World, unavailable, simulated, Request, malformed, burst,
  clamp_count, tally_decision, simulate_from, empty_tally, answer_of, handle_simulate,
  max_simulation_requests,
}

-- The results are numbered in order, from `i + 1` on.
abbrev pub IsNumbered : ℕ → List SimulateResult → Type 0
IsNumbered i [] = Unit
IsNumbered i (r ∷ rs) = (r.index ≡ i + 1) × IsNumbered (i + 1) rs

IsNumbered-append :
    (i : ℕ) (rs : List SimulateResult) (r : SimulateResult)
    → IsNumbered i rs
    → r.index ≡ i + length rs + 1
    → IsNumbered i (rs ++ r ∷ [])
IsNumbered-append i [] r h e = (omega arith, tt)
IsNumbered-append i (x ∷ xs) r (p, h) e = (p, IsNumbered-append (i + 1) xs r h (omega arith))

-- A tally after `i` rounds.
pub record IsTally (i : ℕ) (t : Tally) : Type 0 where
  pub counted : length t.results ≡ i
  pub summed : t.allowed + t.throttled ≡ i
  pub numbered : IsNumbered 0 t.results

none-ne-some : {t : Tally} → none ≡ some t → ⊥
none-ne-some e = cc

unavailable-ne-simulated : {t : Tally} → unavailable ≡ simulated t → ⊥
unavailable-ne-simulated e = cc

simulated-injective : {s t : Tally} → simulated s ≡ simulated t → s ≡ t
simulated-injective e = cc

tally_decision-IsTally :
    (i : ℕ) (d : Decision) (t : Tally) → IsTally i t → IsTally (i + 1) (tally_decision i d t)
tally_decision-IsTally i d t h =
    let r : SimulateResult = record {
      index = i + 1;
      allowed = d.allowed;
      remaining = d.remaining;
      retry_after_ms = d.retry_after_ms;
    } in
    record {
      counted = omega (arith, h.counted, length-append t.results (r ∷ []));
      summed = ground (arith, h.summed);
      numbered = IsNumbered-append 0 t.results r h.numbered (omega (arith, h.counted));
    }

empty-IsTally : IsTally 0 empty_tally
empty-IsTally = record { counted = refl; summed = refl; numbered = tt }

module _ {ℓ} {S : Type ℓ} (allow : S → Option Decision × S) where
  simulate_from-IsTally :
      (left i : ℕ) (t : Tally) (w : World S) (done : Tally)
      → IsTally i t
      → (simulate_from allow i left t w).0 ≡ some done
      → IsTally (i + left) done
  unfolding simulate_from
  simulate_from-IsTally zero i t w done h e =
      let same : i + 0 ≡ i = omega arith in rw (same, ← some-injective _ _ e) h
  simulate_from-IsTally (suc left) i t w done h e = elim (Option-cases (allow w.limiter).0) [
    | inl failed ↦ absurd (none-ne-some (rw (failed, simulate_from) at e))
    | inr (d, decided) ↦
        let next : World S = record {
          limiter = (allow w.limiter).1;
          recorded = w.recorded ++ d.allowed ∷ [];
        } in
        let sum : i + 1 + left ≡ i + suc left = omega arith in
        rw (← sum) (
          simulate_from-IsTally left (i + 1) (tally_decision i d t) next done
            (tally_decision-IsTally i d t h) (rw (decided, simulate_from) at e))
  ]

  -- An answer with a simulation comes for a known tier alone. It has as many results as requests
  -- were asked for, at least one and at most 500; they are numbered from one on, in order; and the
  -- two counts add up to their number.
  pub handle_simulate-IsTally :
      (request : Request) (w : World S) (t : Tally)
      → (handle_simulate allow request w).0 ≡ simulated t
      → (tier : String) × (count : ℕ) × (request ≡ burst tier true count)
        × IsTally (clamp_count count) t
        × (1 ≤ length t.results)
        × (length t.results ≤ max_simulation_requests)
  unfolding handle_simulate
  handle_simulate-IsTally malformed w t e = cc
  handle_simulate-IsTally (burst tier false count) w t e = cc
  handle_simulate-IsTally (burst tier true count) w t e =
      let run = (simulate_from allow 0 (clamp_count count) empty_tally w).0 in
      elim (Option-cases run) [
        | inl failed ↦ absurd (unavailable-ne-simulated (ap answer_of (sym failed) ∙ e))
        | inr (done, finished) ↦
            let same : done ≡ t = simulated-injective (ap answer_of (sym finished) ∙ e) in
            let from_zero : 0 + clamp_count count ≡ clamp_count count = omega arith in
            let tally : IsTally (clamp_count count) t =
              rw (← same, ← from_zero)
                (simulate_from-IsTally (clamp_count count) 0 empty_tally w done empty-IsTally
                  finished) in
            (tier, count, refl, tally, ground (arith, tally.counted), ground (arith, tally.counted))
      ]
