-- ===== src/Dashboard/Simulator/Note.antt =====
-- The request that the simulator's note names.
use ratelimit_gateway.Base.{
  ℕ, suc, ◌+◌, ◌≡◌, refl, sym, Bool, true, false, inl, inr, Option, none, some, List, [], ◌∷◌,
  if◌then◌else◌, Bool-cases, All, take, get_elem?, arith,
}
use mathlib.Core.Option
use mathlib.Core.Path.{subst}
use ratelimit_gateway.Dashboard.Simulator.{SimulateResult, first_rejected}

module _ {ℓ} {N : Type ℓ} where
  abbrev pub IsAllowed : SimulateResult N → Type 0
  IsAllowed r = r.allowed ≡ true

  abbrev pub IsFirstRejected : List (SimulateResult N) → Option ℕ → Type ℓ
  IsFirstRejected rs none = All IsAllowed rs × Unit {ℓ}
  IsFirstRejected rs (some i) =
      (r : SimulateResult N) × (get_elem? rs i ≡ some r)
      × (r.allowed ≡ false)
      × All IsAllowed (take i rs)

  IsFirstRejected-cons :
      (r : SimulateResult N) (rs : List (SimulateResult N)) (o : Option ℕ)
      → r.allowed ≡ true
      → IsFirstRejected rs o
      → IsFirstRejected (r ∷ rs) (Option.map (λ i. i + 1) o)
  IsFirstRejected-cons r rs none a (all, u) = ((a, all), u)
  IsFirstRejected-cons r rs (some i) a (x, found, rejected, before) =
      let e : i + 1 ≡ suc i = omega arith in rw e (x, found, rejected, (a, before))

  pub first_rejected-IsFirstRejected :
      (rs : List (SimulateResult N)) → IsFirstRejected rs (first_rejected rs)
  unfolding first_rejected
  first_rejected-IsFirstRejected [] = (tt, tt)
  first_rejected-IsFirstRejected (r ∷ rs) =
      let later = Option.map (λ i. i + 1) (first_rejected rs) in
      let note : Bool → Type ℓ = λ b. IsFirstRejected (r ∷ rs) (if b then later else some 0) in
      elim (Bool-cases r.allowed) [
        | inl a ↦
            subst note (sym a)
              (IsFirstRejected-cons r rs (first_rejected rs) a (first_rejected-IsFirstRejected rs))
        | inr b ↦ subst note (sym b) (r, refl, b, tt)
      ]
