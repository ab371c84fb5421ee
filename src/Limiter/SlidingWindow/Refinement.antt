-- ===== src/Limiter/SlidingWindow/Refinement.antt =====
-- internal/limiter/scripts/sliding_window.lua against its log.
use ratelimit_gateway.Base.{
  ℕ, ◌+◌, ◌<◌, ◌≡◌, ◌≢◌, refl, ap, sym, ◌∙◌, String, Bool, true, false, ◌||◌, List, [], ◌∷◌, ◌++◌,
  map, filter, ltb, ◌==◌, str_eq, length, length-append, count, ◌≤◌, All, All-imp, All-append,
  All-filter, filter-append, Bool-cases, inl, inr, arith,
}
use mathlib.Core.Path.{ap₂}
use text.Mathlib.TextEquality.{eq_iff}
use ratelimit_gateway.Limiter.Store.{SortedSets, IsSortedSets, scores}
use ratelimit_gateway.Limiter.SlidingWindow.{sliding_window, replies}
use ratelimit_gateway.Limiter.SlidingWindow.Room.{live-live}
use ratelimit_gateway.Limiter.SlidingWindow.Log.{
  is_live, has_room, extend, decisions, IsAscending, is_within, admitted, admitted-decisions,
  log_after-bound,
}
use ratelimit_gateway.Limiter.SlidingWindow.Invariant.{
  IsLogged, settled-IsLogged, trimmed, trimmed-scores, trimmed-count, trimmed-past, trimmed-known,
  length-scores,
}

All-both {ℓ κ μ} :
    {A : Type ℓ} (P : A → Type κ) (Q : A → Type μ) (xs : List A)
    → All P xs
    → All Q xs
    → All (λ x. P x × Q x) xs
All-both P Q [] hs ks = tt
All-both P Q (x ∷ xs) (h, hs) (k, ks) = ((h, k), All-both P Q xs hs ks)

All-of_scores :
    (now : ℕ) (es : List (ℕ × String)) → All (λ a. a ≤ now) (scores es) → All (λ e. e.0 ≤ now) es
All-of_scores now [] hs = tt
All-of_scores now (e ∷ es) (h, hs) = (h, All-of_scores now es hs)

All-to_scores :
    (now : ℕ) (es : List (ℕ × String)) → All (λ e. e.0 ≤ now) es → All (λ a. a ≤ now) (scores es)
All-to_scores now [] hs = tt
All-to_scores now (e ∷ es) (h, hs) = (h, All-to_scores now es hs)

-- The members that calls have used.
abbrev pub use_member : (String → Bool) → String → String → Bool
use_member used member x = str_eq member x || used x

used-later :
    (used : String → Bool) (member x : String) → used x ≡ true → use_member used member x ≡ true
used-later used member x h = ground arith

used-here : (used : String → Bool) (member : String) → use_member used member member ≡ true
used-here used member = let h = (eq_iff member member).1 refl in ground arith

fresh_ne :
    (used : String → Bool) (member x : String) → used member ≡ false → used x ≡ true → x ≢ member
fresh_ne used member x fresh h e = let same = ap used e in ground arith

module _ {ℓ} {S : Type ℓ} ⦃sets : SortedSets S⦄ (laws : IsSortedSets S) (key : String)
    (window : ℕ) where
  open laws use {entries}

  module _ (s : S) (log : List ℕ) (used : String → Bool) (last now : ℕ) (member : String)
      (logged : IsLogged laws key window s log used last) (later : last ≤ now)
      (fresh : used member ≡ false) where
    pub log_past : All (λ a. a ≤ now) log
    log_past = All-imp (λ a. a ≤ last) (λ a. a ≤ now) log (λ a h. omega arith) logged.past_log

    abbrev before : S
    before = trimmed laws key window now s

    abbrev with_entry : S
    with_entry = sets.zadd key now member now before

    with_entry-scores :
        scores (entries key now with_entry) ≡ filter (is_live window now) log ++ now ∷ []
    with_entry-scores =
        laws.added key now member now before (
          All-both (λ e. e.0 ≤ now) (λ e. e.1 ≢ member) (entries key now before)
            (trimmed-past laws key window s log used last now logged later)
            (All-imp (λ e. used e.1 ≡ true) (λ e. e.1 ≢ member) (entries key now before)
              (λ e h. fresh_ne used member e.1 fresh h)
              (trimmed-known laws key window s log used last now logged later)))
        ∙ ap (λ xs. xs ++ now ∷ [])
            (trimmed-scores laws key window s log used last now logged later)

    with_entry-IsLogged :
        IsLogged laws key window
          (sets.pexpire key (window + 1000) now with_entry)
          (log ++ now ∷ [])
          (use_member used member)
          now
    with_entry-IsLogged =
        let log' = log ++ now ∷ [] in
        let past_log = All-append (λ a. a ≤ now) log (now ∷ []) (log_past) (omega arith, tt) in
        settled-IsLogged laws key window with_entry log' (use_member used member) now
          (omega (
            arith,
            ap length with_entry-scores,
            length-scores (entries key now with_entry),
            length-append (filter (is_live window now) log) (now ∷ []),
          ))
          (λ t h.
            ap (filter (is_live window t)) with_entry-scores
            ∙ filter-append (is_live window t) (filter (is_live window now) log) (now ∷ [])
            ∙ ap (λ xs. xs ++ filter (is_live window t) (now ∷ [])) (live-live window now t log h)
            ∙ sym (filter-append (is_live window t) log (now ∷ [])))
          (All-of_scores now (entries key now with_entry) (
            rw with_entry-scores (
              All-append (λ a. a ≤ now) (filter (is_live window now) log) (now ∷ [])
                (All-filter (λ a. a ≤ now) (is_live window now) log (log_past)) (omega arith, tt))))
          (laws.added_member key now member now before (use_member used member)
            (All-imp (λ e. used e.1 ≡ true) (λ e. use_member used member e.1 ≡ true)
              (entries key now before) (λ e h. used-later used member e.1 h)
              (trimmed-known laws key window s log used last now logged later))
            (used-here used member))
          past_log

    trimmed-IsLogged :
        0 < count (is_live window now) log
        → IsLogged laws key window
            (sets.pexpire key (window + 1000) now before)
            log
            (use_member used member)
            now
    trimmed-IsLogged some_live =
        settled-IsLogged laws key window before log (use_member used member) now
          (omega (
            arith,
            trimmed-count laws key window s log used last now logged later,
            laws.counted key now before,
          ))
          (λ t h.
            ap (filter (is_live window t))
              (trimmed-scores laws key window s log used last now logged later)
            ∙ live-live window now t log h)
          (trimmed-past laws key window s log used last now logged later)
          (All-imp (λ e. used e.1 ≡ true) (λ e. use_member used member e.1 ≡ true)
            (entries key now before) (λ e h. used-later used member e.1 h)
            (trimmed-known laws key window s log used last now logged later))
          (log_past)

    module _ (limit : ℕ) (positive : 0 < limit) where
      pub counted-room : ltb (sets.zcard key now before) limit ≡ has_room window limit log now
      counted-room =
          ap (λ n. ltb n limit) (trimmed-count laws key window s log used last now logged later)

      -- One request: the script admits it as the log does, and the set follows the log.
      pub sliding_window-Step :
          let (reply, after) = sliding_window key now window limit member s in
          ((reply.allowed == 1) ≡ has_room window limit log now)
          × IsLogged laws key window after
              (extend window limit log now)
              (use_member used member)
              now
      unfolding sliding_window
      sliding_window-Step = elim (Bool-cases (has_room window limit log now)) [
        | inl room ↦
            let e : ltb (sets.zcard key now before) limit ≡ true = counted-room ∙ room in
            rw (room, e, sliding_window) (refl, with_entry-IsLogged)
        | inr full ↦
            let e : ltb (sets.zcard key now before) limit ≡ false = counted-room ∙ full in
            rw (full, e, sliding_window) (refl, trimmed-IsLogged (ground arith))
      ]

-- The members of the calls are new.
abbrev pub IsFresh : (String → Bool) → List (ℕ × String) → Type 0
IsFresh used [] = Unit
IsFresh used (c ∷ cs) = (used c.1 ≡ false) × IsFresh (use_member used c.1) cs

module _ {ℓ} {S : Type ℓ} ⦃sets : SortedSets S⦄ (laws : IsSortedSets S) (key : String)
    (window limit : ℕ) (positive : 0 < limit) where
  replies-decisions :
      (cs : List (ℕ × String)) (s : S) (log : List ℕ) (used : String → Bool) (last : ℕ)
      → IsLogged laws key window s log used last
      → IsAscending last (map (λ c. c.0) cs)
      → IsFresh used cs
      → map (λ r. r.allowed == 1) (replies key window limit cs s)
        ≡ decisions window limit log (map (λ c. c.0) cs)
  unfolding replies
  replies-decisions [] s log used last logged ascending fresh = refl
  replies-decisions (c ∷ cs) s log used last logged (later, ascending) (new, fresh) =
      let step =
        sliding_window-Step laws key window s log used last c.0 c.1 logged later new limit
          positive in
      ap₂ ◌∷◌ step.0 (
        replies-decisions cs (sliding_window key c.0 window limit c.1 s).1
          (extend window limit log c.0) (use_member used c.1) c.0 step.1 ascending fresh)

  pub absent-IsLogged :
      (s : S)
      → ((t : ℕ) → laws.entries key t s ≡ [])
      → IsLogged laws key window s [] (λ member. false) 0
  absent-IsLogged s absent = record {
    live_entries = λ t h. rw (absent t) refl;
    past_entries = λ t h. rw (absent t) tt;
    known = λ t h. rw (absent t) tt;
    past_log = tt;
  }

  -- From a store that does not have the key, on any requests at times that do not fall and with
  -- members that are new, the script admits exactly those that the log of the admitted times
  -- admits: those with fewer than `limit` admitted requests in the window that ends with them.
  pub replies-log :
      (cs : List (ℕ × String)) (s : S)
      → ((t : ℕ) → laws.entries key t s ≡ [])
      → IsAscending 0 (map (λ c. c.0) cs)
      → IsFresh (λ member. false) cs
      → map (λ r. r.allowed == 1) (replies key window limit cs s)
        ≡ decisions window limit [] (map (λ c. c.0) cs)
  replies-log cs s absent ascending fresh =
      replies-decisions cs s [] (λ member. false) 0 (absent-IsLogged s absent) ascending fresh

  -- Under the same conditions the script admits no more requests than the limit in any stretch of
  -- time as long as the window, wherever it begins.
  pub replies-bound :
      (cs : List (ℕ × String)) (s : S) (start : ℕ)
      → ((t : ℕ) → laws.entries key t s ≡ [])
      → IsAscending 0 (map (λ c. c.0) cs)
      → IsFresh (λ member. false) cs
      → count
          (is_within window start)
          (admitted (map (λ c. c.0) cs) (map (λ r. r.allowed == 1) (replies key window limit cs s)))
        ≤ limit
  replies-bound cs s start absent ascending fresh =
      rw
        (
          replies-log cs s absent ascending fresh,
          admitted-decisions window limit [] (map (λ c. c.0) cs),
        )
        (log_after-bound window limit start (map (λ c. c.0) cs))
