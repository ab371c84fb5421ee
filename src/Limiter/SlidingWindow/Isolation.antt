-- ===== src/Limiter/SlidingWindow/Isolation.antt =====
-- internal/limiter/scripts/sliding_window.lua run for another key.
use ratelimit_gateway.Base.{
  ℕ, ◌+◌, ◌≤◌, ◌≡◌, ◌≢◌, refl, sym, ap, ◌∙◌, String, Bool, true, List, [], filter, count, All, ltb,
  Bool-cases, inl, inr,
}
use mathlib.Core.Path.{subst}
use ratelimit_gateway.Limiter.Store.{SortedSets, IsSortedSets, IsLocal, scores}
use ratelimit_gateway.Limiter.SlidingWindow.{cutoff_of, admit, sliding_window}
use ratelimit_gateway.Limiter.SlidingWindow.Log.{
  is_live, decisions, is_within, admitted, admitted-decisions, log_after-bound,
}
use ratelimit_gateway.Limiter.SlidingWindow.Invariant.{IsLogged}

module _ {ℓ} {S : Type ℓ} ⦃sets : SortedSets S⦄ (laws : IsSortedSets S) (local : IsLocal S laws)
    (key other : String) (different : other ≢ key) where
  open laws use {entries}

  admit-other :
      (now limit : ℕ) (member : String) (counted t : ℕ) (s : S)
      → entries other t (admit key now limit member counted s) ≡ entries other t s
  admit-other now limit member counted t s = elim (Bool-cases (ltb counted limit)) [
    | inl room ↦ rw room (local.added_other key other now member now t s different)
    | inr full ↦ rw full refl
  ]

  -- The script leaves the sets of other keys as they are.
  pub sliding_window-other :
      (now window limit : ℕ) (member : String) (t : ℕ) (s : S)
      → entries other t (sliding_window key now window limit member s).1 ≡ entries other t s
  unfolding sliding_window
  sliding_window-other now window limit member t s =
      let trimmed = sets.zremrangebyscore key (cutoff_of now window) now s in
      let counted = sets.zcard key now trimmed in
      local.expiring_other key other (window + 1000) now t
        (admit key now limit member counted trimmed) different
      ∙ admit-other now limit member counted t trimmed
      ∙ local.removed_other key other (cutoff_of now window) now t s different

  -- So it does not touch what they have to do with their logs.
  pub IsLogged-other :
      (own_window : ℕ) (s : S) (log : List ℕ) (used : String → Bool) (last : ℕ)
      (now window limit : ℕ) (member : String)
      → IsLogged laws other own_window s log used last
      → IsLogged laws other own_window
          (sliding_window key now window limit member s).1
          log
          used
          last
  IsLogged-other own_window s log used last now window limit member h = record {
    live_entries = λ t later.
        ap (λ es. filter (is_live own_window t) (scores es))
          (sliding_window-other now window limit member t s)
        ∙ h.live_entries t later;
    past_entries = λ t later.
        subst (All (λ e. e.0 ≤ last)) (sym (sliding_window-other now window limit member t s))
          (h.past_entries t later);
    known = λ t later.
        subst (All (λ e. used e.1 ≡ true)) (sym (sliding_window-other now window limit member t s))
          (h.known t later);
    past_log = h.past_log;
  }

-- No stretch of time as long as the window has more decisions to admit than the limit.
pub decisions-bound :
    (window limit start : ℕ) (times : List ℕ)
    → count (is_within window start) (admitted times (decisions window limit [] times)) ≤ limit
decisions-bound window limit start times =
    rw (admitted-decisions window limit [] times) (log_after-bound window limit start times)
