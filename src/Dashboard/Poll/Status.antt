-- ===== src/Dashboard/Poll/Status.antt =====
-- The status pill after any number of polls.
use ratelimit_gateway.Base.{
  ℕ, ◌+◌, ◌≡◌, refl, ap, ◌∙◌, Bool, true, false, ◌&&◌, Option, none, some, List, [], ◌∷◌,
  if◌then◌else◌, leb, length, arith,
}
use ratelimit_gateway.Number.{Number}
use ratelimit_gateway.Dashboard.Header.{
  StatusClasses, render_status, render_header, show_unreachable,
}
use ratelimit_gateway.Dashboard.Chart.{Viewport}
use ratelimit_gateway.Dashboard.Poll.{
  Client, Reply, unreachable, refused, answered, measure, poll_failed, poll_answered, poll, polls,
}

module _ {ℓ} {N : Type ℓ} where
  abbrev pub is_failed : Reply N → Bool
  is_failed unreachable = true
  is_failed (refused status) = true
  is_failed (answered stats) = false

  abbrev pub all_failed : List (Reply N) → Bool
  all_failed [] = true
  all_failed (r ∷ rs) = is_failed r && all_failed rs

  -- The length of the longest suffix of failed replies.
  abbrev pub trailing_failures : List (Reply N) → ℕ
  trailing_failures [] = 0
  trailing_failures (r ∷ rs) =
      let shorter = trailing_failures rs in if all_failed (r ∷ rs) then length (r ∷ rs) else shorter

  -- What the last payload of the run said of redis.
  abbrev pub last_health : Option Bool → List (Reply N) → Option Bool
  last_health h [] = h
  last_health h (unreachable ∷ rs) = last_health h rs
  last_health h (refused status ∷ rs) = last_health h rs
  last_health h (answered stats ∷ rs) = last_health (some stats.redis_healthy) rs

abbrev pub down_only : StatusClasses
down_only = record { ok = false; degraded = false; down = true }

-- The classes for what a payload said of redis; without a payload they are as at the start.
abbrev pub classes_of : StatusClasses → Option Bool → StatusClasses
classes_of start none = start
classes_of start (some true) = record { ok = true; degraded = false; down = false }
classes_of start (some false) = record { ok = false; degraded = true; down = false }

abbrev pub expected_status : StatusClasses → ℕ → Option Bool → StatusClasses
expected_status start failures health =
    if leb 3 failures then down_only else classes_of start health

module _ {ℓ} {N : Type ℓ} ⦃num : Number N⦄ where
  abbrev counted : ℕ → List (Reply N) → ℕ
  counted n [] = n
  counted n (unreachable ∷ rs) = counted (n + 1) rs
  counted n (refused status ∷ rs) = counted (n + 1) rs
  counted n (answered stats ∷ rs) = counted 0 rs

  trailing_failures_of_all_failed :
      (rs : List (Reply N)) → all_failed rs ≡ true → trailing_failures rs ≡ length rs
  trailing_failures_of_all_failed [] h = refl
  trailing_failures_of_all_failed (r ∷ rs) h = rw h refl

  counted_lem :
      (n : ℕ) (rs : List (Reply N))
      → counted n rs ≡ (if all_failed rs then n + length rs else trailing_failures rs)
  counted_lem n [] = omega arith
  counted_lem n (unreachable ∷ rs) = ground (arith, counted_lem (n + 1) rs)
  counted_lem n (refused status ∷ rs) = ground (arith, counted_lem (n + 1) rs)
  counted_lem n (answered stats ∷ rs) =
      ground (arith, counted_lem 0 rs, trailing_failures_of_all_failed rs)

  counted-trailing_failures : (rs : List (Reply N)) → counted 0 rs ≡ trailing_failures rs
  counted-trailing_failures [] = refl
  counted-trailing_failures (r ∷ rs) = ground (arith, counted_lem 0 (r ∷ rs))

  module _ (view : Viewport N) where
    poll-failures :
        (r : Reply N) (c : Client N)
        → (poll view r c).state.failures ≡ counted c.state.failures (r ∷ [])
    unfolding poll poll_failed poll_answered measure
    poll-failures unreachable c = refl
    poll-failures (refused status) c = refl
    poll-failures (answered stats) c = ground arith

    -- One poll keeps to the expectation, for the classes and the count that it finds.
    poll-status :
        (r : Reply N) (c : Client N) (start : StatusClasses) (health : Option Bool)
        → c.header.status ≡ expected_status start c.state.failures health
        → (poll view r c).header.status
          ≡ expected_status start (poll view r c).state.failures (last_health health (r ∷ []))
    unfolding poll poll_failed poll_answered measure render_header render_status show_unreachable
    poll-status unreachable c start health h = ground arith
    poll-status (refused status) c start health h = ground arith
    poll-status (answered stats) c start health h = ground arith

    polls-expected :
        (rs : List (Reply N)) (c : Client N) (start : StatusClasses) (health : Option Bool)
        → c.header.status ≡ expected_status start c.state.failures health
        → (polls view rs c).header.status
          ≡ expected_status start (counted c.state.failures rs) (last_health health rs)
    unfolding polls
    polls-expected [] c start health h = h
    polls-expected (unreachable ∷ rs) c start health h =
        polls-expected rs (poll view unreachable c) start health
          (poll-status unreachable c start health h)
        ∙ ap (λ n. expected_status start (counted n rs) (last_health health rs))
            (poll-failures unreachable c)
    polls-expected (refused status ∷ rs) c start health h =
        polls-expected rs (poll view (refused status) c) start health
          (poll-status (refused status) c start health h)
        ∙ ap (λ n. expected_status start (counted n rs) (last_health health rs))
            (poll-failures (refused status) c)
    polls-expected (answered stats ∷ rs) c start health h =
        let said : Option Bool = some stats.redis_healthy in
        polls-expected rs (poll view (answered stats) c) start said
          (poll-status (answered stats) c start health h)
        ∙ ap (λ n. expected_status start (counted n rs) (last_health said rs))
            (poll-failures (answered stats) c)

    -- After any run of polls on a page that has seen no failure, the pill has the one class `down`
    -- exactly when the run ends in three or more failures; else it shows what the last payload said
    -- of redis, `ok` or `degraded` alone, and is as at the start where no payload came.
    pub polls-status :
        (rs : List (Reply N)) (c : Client N)
        → c.state.failures ≡ 0
        → (polls view rs c).header.status
          ≡ expected_status c.header.status (trailing_failures rs) (last_health none rs)
    polls-status rs c fresh =
        let start = c.header.status in
        polls-expected rs c start none (rw fresh refl)
        ∙ ap (λ n. expected_status start (counted n rs) (last_health none rs)) fresh
        ∙ ap (λ n. expected_status start n (last_health none rs)) (counted-trailing_failures rs)
