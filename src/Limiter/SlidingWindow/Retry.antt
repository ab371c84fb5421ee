-- ===== src/Limiter/SlidingWindow/Retry.antt =====
-- What internal/limiter/scripts/sliding_window.lua tells a refused caller about the time to wait.
use ratelimit_gateway.Base.{
  ℕ, ◌+◌, ◌-◌, ◌≤◌, ◌<◌, ◌≡◌, refl, ap, sym, ◌∙◌, String, Bool, false, Option, none, some, List, [],
  ◌∷◌, map, filter, leb, ◌==◌, length, length-filter, count, Bool-cases, inl, inr, arith,
}
use ratelimit_gateway.Limiter.Store.{SortedSets, IsSortedSets, scores, first_score}
use ratelimit_gateway.Limiter.SlidingWindow.{reset_of, sliding_window, store_after}
use ratelimit_gateway.Limiter.SlidingWindow.Log.{
  is_live, has_room, extend, log_after, IsAscending, log_after-IsBounded,
}
use ratelimit_gateway.Limiter.SlidingWindow.Room.{
  last_of, count_live-le, has_room_again, has_room_not_yet, log_after-IsAscending,
}
use ratelimit_gateway.Limiter.SlidingWindow.Invariant.{IsLogged, trimmed, trimmed-scores}
use ratelimit_gateway.Limiter.SlidingWindow.Refinement.{
  use_member, IsFresh, sliding_window-Step, absent-IsLogged, counted-room, log_past,
}

abbrev pub used_after : (String → Bool) → List (ℕ × String) → String → Bool
used_after used [] = used
used_after used (c ∷ cs) = used_after (use_member used c.1) cs

abbrev first_of : List ℕ → Option ℕ
first_of [] = none
first_of (a ∷ rest) = some a

first_score-scores : (es : List (ℕ × String)) → first_score es ≡ first_of (scores es)
first_score-scores [] = refl
first_score-scores (e ∷ es) = refl

module _ {ℓ} {S : Type ℓ} ⦃sets : SortedSets S⦄ (laws : IsSortedSets S) (key : String)
    (window limit : ℕ) (positive : 0 < limit) where
  store_after-IsLogged :
      (cs : List (ℕ × String)) (s : S) (log : List ℕ) (used : String → Bool) (last : ℕ)
      → IsLogged laws key window s log used last
      → IsAscending last (map (λ c. c.0) cs)
      → IsFresh used cs
      → IsLogged laws key window
          (store_after key window limit cs s)
          (log_after window limit log (map (λ c. c.0) cs))
          (used_after used cs)
          (last_of last (map (λ c. c.0) cs))
  unfolding store_after
  store_after-IsLogged [] s log used last logged ascending fresh = logged
  store_after-IsLogged (c ∷ cs) s log used last logged (later, ascending) (new, fresh) =
      store_after-IsLogged cs (sliding_window key c.0 window limit c.1 s).1
        (extend window limit log c.0) (use_member used c.1) c.0
        (sliding_window-Step laws key window s log used last c.0 c.1 logged later new limit
          positive).1
        ascending fresh

  -- A refusal tells the time until the oldest live request leaves the window.
  refused_reset :
      (s : S) (log : List ℕ) (used : String → Bool) (last now : ℕ) (member : String)
      → IsLogged laws key window s log used last
      → last ≤ now
      → used member ≡ false
      → has_room window limit log now ≡ false
      → (sliding_window key now window limit member s).0.retry_after_ms
        ≡ reset_of now window (first_of (filter (is_live window now) log))
  unfolding sliding_window
  refused_reset s log used last now member logged later fresh full =
      let e =
        counted-room laws key window s log used last now member logged later fresh limit positive
        ∙ full in
      rw (e, sliding_window)
        (ap (reset_of now window) (
          laws.first key now (trimmed laws key window now s)
          ∙ first_score-scores (laws.entries key now (trimmed laws key window now s))
          ∙ ap first_of (trimmed-scores laws key window s log used last now logged later)))

  has_room_after :
      (log : List ℕ) (now delay : ℕ) (live : List ℕ)
      → IsAscending 0 log
      → filter (is_live window now) log ≡ live
      → count (is_live window now) log ≤ limit
      → has_room window limit log now ≡ false
      → has_room window limit log (now + delay) ≡ leb (reset_of now window (first_of live)) delay
  has_room_after log now delay [] ascending none_live bound full =
      let nothing = ap length none_live in
      let counted = length-filter (is_live window now) log in absurd (ground arith)
  has_room_after log now delay (oldest ∷ rest) ascending live bound full =
      elim (Bool-cases (leb (oldest + window - now) delay)) [
        | inl enough ↦ rw enough (
            has_room_again window limit now (now + delay) oldest log rest (omega arith)
              (ground arith) live bound)
        | inr early ↦ rw early (
            has_room_not_yet window limit now (now + delay) oldest log rest (omega arith)
              (ground arith) ascending live full)
      ]

  -- From a store that does not have the key, after any requests at times that do not fall and with
  -- new members, for a limit and a window above zero: a refused caller whose next request comes after some delay, with no request in
  -- between, is admitted if and only if the delay is at least the one that the refusal told.
  pub retry_exact :
      (cs : List (ℕ × String)) (s : S) (now delay : ℕ) (member next_member : String)
      → ((t : ℕ) → laws.entries key t s ≡ [])
      → IsAscending 0 (map (λ c. c.0) cs)
      → last_of 0 (map (λ c. c.0) cs) ≤ now
      → IsFresh (λ member. false) cs
      → used_after (λ member. false) cs member ≡ false
      → use_member (used_after (λ member. false) cs) member next_member ≡ false
      → 0 < window
      → ((sliding_window key now window limit member (store_after key window limit cs s)).0.allowed
          == 1)
        ≡ false
      → let (reply, after) =
          sliding_window key now window limit member (store_after key window limit cs s) in
        ((sliding_window key (now + delay) window limit next_member after).0.allowed == 1)
        ≡ leb reply.retry_after_ms delay
  retry_exact cs s now delay member next_member absent ascending later fresh new next_new wide
        refused =
      let ts = map (λ c. c.0) cs in
      let log = log_after window limit [] ts in
      let used = used_after (λ member. false) cs in
      let last = last_of 0 ts in
      let start = store_after key window limit cs s in
      let logged =
        store_after-IsLogged cs s [] (λ member. false) 0
          (absent-IsLogged laws key window limit positive s absent) ascending fresh in
      let step =
        sliding_window-Step laws key window start log used last now member logged later new limit
          positive in
      let full : has_room window limit log now ≡ false = sym step.0 ∙ refused in
      let told = refused_reset start log used last now member logged later new full in
      let bound =
        count_live-le window limit now log wide
          (log_past laws key window start log used last now member logged later new)
          (log_after-IsBounded window limit ts [] (λ begin. omega arith)) in
      let (reply, after) = sliding_window key now window limit member start in
      let same_log : extend window limit log now ≡ log = rw full refl in
      (sliding_window-Step laws key window after (extend window limit log now)
        (use_member used member) now (now + delay) next_member step.1 (omega arith) next_new limit
        positive).0
      ∙ ap (λ l. has_room window limit l (now + delay)) same_log
      ∙ has_room_after log now delay (filter (is_live window now) log)
          (log_after-IsAscending window limit 0 ts [] tt ascending tt) refl bound full
      ∙ ap (λ r. leb r delay) (sym told)
