-- ===== src/Dashboard/Poll/Growth.antt =====
-- The sign of the rates that `poll` of app.js keeps in its history.
use ratelimit_gateway.Base.{
  ◌≡◌, refl, true, inl, inr, Option, none, some, List, [], ◌∷◌, ◌++◌, All, All-append, All-tail,
  Bool-cases, ltb, length, push_bounded, arith, ℕ,
}
use ratelimit_gateway.Number.{Number, le, max}
use ratelimit_gateway.Number.Laws.{IsOrdered}
use ratelimit_gateway.Dashboard.Stats.{Stats}
use ratelimit_gateway.Dashboard.Kpis.{Rates}
use ratelimit_gateway.Dashboard.Chart.{history_size, Viewport}
use ratelimit_gateway.Dashboard.Poll.{
  State, Client, Reply, unreachable, refused, answered, min_sample_seconds, elapsed_since,
  rates_between, polls, measure, initial_state,
}
use ratelimit_gateway.Dashboard.Poll.States.{
  state_after, states_after, polls-state, measure-early, measure-late,
}

module _ {ℓ} {N : Type ℓ} ⦃num : Number N⦄ where
  -- JSON holds finite numbers; an uptime is not negative.
  abbrev pub IsSound : Stats N → Type 0
  IsSound stats =
      (num.is_finite stats.uptime_seconds ≡ true)
      × (le (num.nat 0) stats.uptime_seconds ≡ true)
      × (num.is_finite stats.allowed ≡ true)
      × (num.is_finite stats.throttled ≡ true)

  abbrev pub IsSoundReply : Reply N → Type 0
  IsSoundReply unreachable = Unit
  IsSoundReply (refused status) = Unit
  IsSoundReply (answered stats) = IsSound stats

  abbrev pub IsNonnegative : Rates N → Type 0
  IsNonnegative r = (le (num.nat 0) r.allowed ≡ true) × (le (num.nat 0) r.throttled ≡ true)

  abbrev IsSoundBase : Option (Stats N) → Type 0
  IsSoundBase none = Unit
  IsSoundBase (some stats) = IsSound stats

  abbrev IsGrowing : State N → Type 0
  IsGrowing s = IsSoundBase s.previous × All IsNonnegative s.history

  push_bounded-All :
      (n : ℕ) (xs : List (Rates N)) (x : Rates N)
      → All IsNonnegative xs
      → IsNonnegative x
      → All IsNonnegative (push_bounded n xs x)
  push_bounded-All n xs x h p =
      let all = All-append IsNonnegative xs (x ∷ []) h (p, tt) in
      elim (Bool-cases (ltb n (length (xs ++ x ∷ [])))) [
        | inl full ↦ rw full (All-tail IsNonnegative (xs ++ x ∷ []) all)
        | inr room ↦ rw room all
      ]

  module _ (laws : IsOrdered N) where
    le-max_zero :
        (a b : N)
        → num.is_finite a ≡ true
        → num.is_finite b ≡ true
        → le (num.nat 0) (max (num.nat 0) (num.sub a b)) ≡ true
    le-max_zero a b f g = ground (arith, laws.eq_nat 0, laws.sub_eq a b f g)

    rates_between-IsNonnegative :
        (prev stats : Stats N)
        → IsSound prev
        → IsSound stats
        → le min_sample_seconds (elapsed_since prev stats) ≡ true
        → IsNonnegative (rates_between prev stats)
    unfolding rates_between
    rates_between-IsNonnegative prev stats (pu, pn, pa, pt) (u, n, a, t) late =
        let finite = laws.sub_finite _ _ u pu n pn in
        let positive = laws.lt_le_trans _ _ _ laws.half_pos late in
        (
          laws.div_nonneg _ _ (le-max_zero _ _ a pa) finite positive,
          laws.div_nonneg _ _ (le-max_zero _ _ t pt) finite positive,
        )

    measure-IsGrowing :
        (stats : Stats N) (base : Option (Stats N)) (s : State N)
        → IsSound stats
        → IsSoundBase base
        → All IsNonnegative s.history
        → s.previous ≡ base
        → IsGrowing (measure stats s base).0
    unfolding measure
    measure-IsGrowing stats none s sound b h e = (sound, h)
    measure-IsGrowing stats (some prev) s sound b h e =
        elim (Bool-cases (le min_sample_seconds (elapsed_since prev stats))) [
          | inl late ↦ rw (measure-late prev stats s late) (
            sound,
            push_bounded-All history_size s.history (rates_between prev stats) h
                (rates_between-IsNonnegative prev stats b sound late),
          )
          | inr early ↦ rw (measure-early prev stats s early) (rw e b, h)
        ]

    states_after-IsGrowing :
        (rs : List (Reply N)) (s : State N)
        → All IsSoundReply rs
        → IsGrowing s
        → IsGrowing (states_after rs s)
    unfolding states_after state_after
    states_after-IsGrowing [] s ss g = g
    states_after-IsGrowing (unreachable ∷ rs) s (_, ss) g = states_after-IsGrowing rs _ ss g
    states_after-IsGrowing (refused status ∷ rs) s (_, ss) g = states_after-IsGrowing rs _ ss g
    states_after-IsGrowing (answered stats ∷ rs) s (sound, ss) (b, h) =
        states_after-IsGrowing rs _ ss
          (measure-IsGrowing stats s.previous (record s { failures = 0 }) sound b h refl)

    -- If every payload has finite counters and a finite uptime that is not negative, no rate of the
    -- history is negative, whatever the counters did between the polls.
    pub polls-IsNonnegative :
        (view : Viewport N) (rs : List (Reply N)) (c : Client N)
        → All IsSoundReply rs
        → c.state ≡ initial_state
        → All IsNonnegative (polls view rs c).state.history
    polls-IsNonnegative view rs c ss fresh =
        rw (polls-state view rs c, fresh) (states_after-IsGrowing rs initial_state ss (tt, tt)).1
