-- ===== src/Dashboard/Poll/History.antt =====
-- What `state.history` holds after any number of polls.
use ratelimit_gateway.Base.{
  ℕ, ◌+◌, ◌≡◌, sym, ap, ◌∙◌, Bool, inl, inr, Option, none, some, List, [], ◌∷◌, ◌++◌, if◌then◌else◌,
  Bool-cases, last_n, push_bounded-last_n,
}
use mathlib.Core.List.{append_assoc, append-nil}
use ratelimit_gateway.Number.{Number, le}
use ratelimit_gateway.Dashboard.Stats.{Stats}
use ratelimit_gateway.Dashboard.Kpis.{Rates}
use ratelimit_gateway.Dashboard.Chart.{history_size, Viewport}
use ratelimit_gateway.Dashboard.Poll.{
  State, Client, Reply, unreachable, refused, answered, min_sample_seconds, elapsed_since,
  rates_between, polls, measure, initial_state,
}
use ratelimit_gateway.Dashboard.Poll.States.{
  state_after, states_after, polls-state, measure-late, measure-early,
}

module _ {ℓ} {N : Type ℓ} ⦃num : Number N⦄ where
  -- The samples of a run, said without the script's state: a payload is measured against the last
  -- one that became the baseline, if it came late enough, and then becomes the baseline.
  abbrev pub samples : Option (Stats N) → List (Reply N) → List (Rates N)
  samples base [] = []
  samples base (unreachable ∷ rs) = samples base rs
  samples base (refused status ∷ rs) = samples base rs
  samples none (answered stats ∷ rs) = samples (some stats) rs
  samples (some prev) (answered stats ∷ rs) =
      let late = rates_between prev stats ∷ samples (some stats) rs in
      let early = samples (some prev) rs in
      if le min_sample_seconds (elapsed_since prev stats) then late else early

  abbrev state_of : Option (Stats N) → List (Rates N) → ℕ → State N
  state_of base log n = record { previous = base; history = last_n history_size log; failures = n }

  abbrev kept : Option (Stats N) → List (Rates N) → State N
  kept base history = record { previous = base; history = history; failures = 0 }

  abbrev chosen : List (Rates N) → List (Rates N) → List (Rates N) → Bool → List (Rates N)
  chosen log late early b = last_n history_size (log ++ (if b then late else early))

  states_after-history :
      (rs : List (Reply N)) (base : Option (Stats N)) (log : List (Rates N)) (n : ℕ)
      → (states_after rs (state_of base log n)).history
        ≡ last_n history_size (log ++ samples base rs)
  unfolding states_after state_after measure
  states_after-history [] base log n = rw (append-nil log)
  states_after-history (unreachable ∷ rs) base log n = states_after-history rs base log (n + 1)
  states_after-history (refused status ∷ rs) base log n = states_after-history rs base log (n + 1)
  states_after-history (answered stats ∷ rs) none log n = states_after-history rs (some stats) log 0
  states_after-history (answered stats ∷ rs) (some prev) log n =
      elim (Bool-cases (le min_sample_seconds (elapsed_since prev stats))) [
        | inl late ↦
            let x = rates_between prev stats in
            let after : State N → List (Rates N) = λ m. (states_after rs m).history in
            ap after (measure-late prev stats (state_of (some prev) log 0) late)
            ∙ ap (λ h. after (kept (some stats) h)) (push_bounded-last_n history_size log x)
            ∙ states_after-history rs (some stats) (log ++ x ∷ []) 0
            ∙ ap (last_n history_size) (append_assoc log (x ∷ []) (samples (some stats) rs))
            ∙ ap (chosen log (x ∷ samples (some stats) rs) (samples (some prev) rs)) (sym late)
        | inr early ↦
            ap (λ m. (states_after rs m).history)
              (measure-early prev stats (state_of (some prev) log 0) early)
            ∙ states_after-history rs (some prev) log 0
            ∙ ap
                (chosen log (rates_between prev stats ∷ samples (some stats) rs)
                  (samples (some prev) rs))
                (sym early)
      ]

  -- From the start of the page, and whatever the replies, the history holds the last 60 samples.
  pub polls-history :
      (view : Viewport N) (rs : List (Reply N)) (c : Client N)
      → c.state ≡ initial_state
      → (polls view rs c).state.history ≡ last_n history_size (samples none rs)
  polls-history view rs c fresh =
      ap (λ s. s.history) (polls-state view rs c ∙ ap (states_after rs) fresh)
      ∙ states_after-history rs none [] 0
