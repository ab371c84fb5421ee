-- ===== src/Integration/Burst.antt =====
-- The dashboard's simulator at the answer of the gateway.
use ratelimit_gateway.Base.{
  ℕ, zero, suc, ◌+◌, ◌≡◌, refl, ap, ◌∙◌, String, true, false, Option, some, List, [], ◌∷◌, map, All,
  take, get_elem?, take-map, arith,
}
use mathlib.Core.Path.{subst}
use mathlib.Core.Option.{some-injective}
use ratelimit_gateway.Number.{Number}
use ratelimit_gateway.Gateway.Simulate as Server
use ratelimit_gateway.Gateway.Simulate.{
  Decision, Tally, World, Answer, simulated, Request, handle_simulate,
}
use ratelimit_gateway.Gateway.Simulate.Counts.{IsNumbered, handle_simulate-IsTally}
use ratelimit_gateway.Dashboard.Simulator.{SimulateResult, SimulateResponse, first_rejected}
use ratelimit_gateway.Dashboard.Simulator.Note.{
  IsAllowed, IsFirstRejected, first_rejected-IsFirstRejected,
}

module _ {ℓ} {N : Type ℓ} ⦃num : Number N⦄ where
  -- The JSON of a result and of a response, as the script reads it back.
  abbrev pub received_result : Server.SimulateResult → SimulateResult N
  received_result r = record {
    index = num.nat r.index;
    allowed = r.allowed;
    remaining = num.nat r.remaining;
    retry_after_ms = num.nat r.retry_after_ms;
  }

  abbrev pub received : String → N → Tally → SimulateResponse N
  received tier duration t = record {
    tier = tier;
    allowed = num.nat t.allowed;
    throttled = num.nat t.throttled;
    duration_ms = duration;
    results = map received_result t.results;
  }

  get_elem?-map_received :
      (rs : List Server.SimulateResult) (i : ℕ) (x : SimulateResult N)
      → get_elem? (map received_result rs) i ≡ some x
      → (r : Server.SimulateResult) × (get_elem? rs i ≡ some r) × (received_result r ≡ x)
  get_elem?-map_received [] i x e = cc
  get_elem?-map_received (r ∷ rs) zero x e = (r, refl, some-injective _ _ e)
  get_elem?-map_received (r ∷ rs) (suc i) x e = get_elem?-map_received rs i x e

module _ {ℓ} (N : Type ℓ) ⦃num : Number N⦄ where
  All-map_received :
      (rs : List Server.SimulateResult)
      → All IsAllowed (map (received_result {N = N}) rs)
      → All (λ (r : Server.SimulateResult). r.allowed ≡ true) rs
  All-map_received [] h = tt
  All-map_received (r ∷ rs) (p, h) = (p, All-map_received rs h)

index_of_IsNumbered :
    (i k : ℕ) (rs : List Server.SimulateResult) (r : Server.SimulateResult)
    → IsNumbered i rs
    → get_elem? rs k ≡ some r
    → r.index ≡ i + k + 1
index_of_IsNumbered i k [] r h e = cc
index_of_IsNumbered i zero (x ∷ xs) r (p, h) e =
    omega (arith, ap (λ (s : Server.SimulateResult). s.index) (some-injective _ _ e))
index_of_IsNumbered i (suc k) (x ∷ xs) r (p, h) e =
    omega (arith, index_of_IsNumbered (i + 1) k xs r h e)

module _ {ℓ κ} {N : Type ℓ} ⦃num : Number N⦄ {S : Type κ} (allow : S → Option Decision × S) where
  -- If the script names the (i + 1)-th request of a burst as the first rejected one, that request
  -- has this number in the gateway's answer, the limiter rejected it, and it allowed all before.
  pub first_rejected-handle_simulate :
      (request : Request) (w : World S) (tier : String) (duration : N) (t : Tally) (i : ℕ)
      → (handle_simulate allow request w).0 ≡ simulated t
      → first_rejected (received tier duration t).results ≡ some i
      → (r : Server.SimulateResult) × (get_elem? t.results i ≡ some r)
        × (r.index ≡ i + 1)
        × (r.allowed ≡ false)
        × All (λ s. s.allowed ≡ true) (take i t.results)
  first_rejected-handle_simulate request w tier duration t i answered named =
      let rs = (received tier duration t).results in
      let (x, found, rejected, before) =
        subst (IsFirstRejected rs) named (first_rejected-IsFirstRejected rs) in
      let (r, found', same) = get_elem?-map_received t.results i x found in
      let numbered = (handle_simulate-IsTally allow request w t answered).3.numbered in
      (
        r,
        found',
        omega (arith, index_of_IsNumbered 0 i t.results r numbered found'),
        ap (λ s. s.allowed) same ∙ rejected,
        All-map_received N (take i t.results)
            (subst (All IsAllowed) (take-map i received_result t.results) before),
      )
