-- ===== src/Dashboard/Poll/States.antt =====
-- The script's state without the page: what `poll` does to `state` does not depend on the page.
use ratelimit_gateway.Base.{◌+◌, ◌≡◌, refl, ap, ◌∙◌, true, false, some, List, [], ◌∷◌, push_bounded}
use ratelimit_gateway.Number.{Number, le}
use ratelimit_gateway.Dashboard.Stats.{Stats}
use ratelimit_gateway.Dashboard.Chart.{history_size, Viewport}
use ratelimit_gateway.Dashboard.Poll.{
  State, Client, Reply, unreachable, refused, answered, measure, poll_failed, poll_answered, poll,
  polls, min_sample_seconds, elapsed_since, rates_between,
}

module _ {ℓ} {N : Type ℓ} ⦃num : Number N⦄ where
  unfoldable pub state_after : Reply N → State N → State N
  state_after unreachable s = record s { failures = s.failures + 1 }
  state_after (refused status) s = record s { failures = s.failures + 1 }
  state_after (answered stats) s = (measure stats (record s { failures = 0 }) s.previous).0

  unfoldable pub states_after : List (Reply N) → State N → State N
  states_after [] s = s
  states_after (r ∷ rs) s = states_after rs (state_after r s)

  pub poll-state :
      (view : Viewport N) (r : Reply N) (c : Client N)
      → (poll view r c).state ≡ state_after r c.state
  unfolding poll poll_failed poll_answered state_after
  poll-state view unreachable c = refl
  poll-state view (refused status) c = refl
  poll-state view (answered stats) c = refl

  pub polls-state :
      (view : Viewport N) (rs : List (Reply N)) (c : Client N)
      → (polls view rs c).state ≡ states_after rs c.state
  unfolding polls states_after
  polls-state view [] c = refl
  polls-state view (r ∷ rs) c =
      polls-state view rs (poll view r c) ∙ ap (states_after rs) (poll-state view r c)

  -- A poll that comes late enough, and one that does not.
  pub measure-late :
      (prev stats : Stats N) (s : State N)
      → le min_sample_seconds (elapsed_since prev stats) ≡ true
      → (measure stats s (some prev)).0 ≡ record s {
        previous = some stats;
        history = push_bounded history_size s.history (rates_between prev stats);
      }
  unfolding measure
  measure-late prev stats s late = rw late refl

  pub measure-early :
      (prev stats : Stats N) (s : State N)
      → le min_sample_seconds (elapsed_since prev stats) ≡ false
      → (measure stats s (some prev)).0 ≡ s
  unfolding measure
  measure-early prev stats s early = rw early refl
