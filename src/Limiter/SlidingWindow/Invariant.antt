-- ===== src/Limiter/SlidingWindow/Invariant.antt =====
-- The set that internal/limiter/scripts/sliding_window.lua keeps, against the log of the admitted requests.
use ratelimit_gateway.Base.{
  ℕ, suc, ◌+◌, ◌≤◌, ◌<◌, ◌≡◌, refl, ap, sym, ◌∙◌, String, Bool, true, false, some, List, [], ◌∷◌,
  filter, length, count, All, All-imp, All-filter, filter_none, length-filter, Bool-cases, ◌⊎◌, inl,
  inr, arith,
}
use ratelimit_gateway.Limiter.Store.{SortedSets, IsSortedSets, lives, is_above, scores}
use ratelimit_gateway.Limiter.SlidingWindow.{cutoff_of}
use ratelimit_gateway.Limiter.SlidingWindow.Log.{is_live}

-- The cutoff keeps what is live.
is_above-cutoff_of : (now window a : ℕ) → is_above (cutoff_of now window) a ≡ is_live window now a
is_above-cutoff_of now window a = ground arith

pub length-scores : (es : List (ℕ × String)) → length (scores es) ≡ length es
length-scores [] = refl
length-scores (e ∷ es) = ap suc (length-scores es)

scores-filter :
    (now window : ℕ) (es : List (ℕ × String))
    → scores (filter (λ e. is_above (cutoff_of now window) e.0) es)
      ≡ filter (is_live window now) (scores es)
scores-filter now window [] = refl
scores-filter now window (e ∷ es) =
    ground (arith, scores-filter now window es, is_above-cutoff_of now window e.0)

none_live :
    (window last t : ℕ) (log : List ℕ)
    → last + window ≤ t
    → All (λ a. a ≤ last) log
    → filter (is_live window t) log ≡ []
none_live window last t log h past =
    filter_none (is_live window t) log
      (All-imp (λ a. a ≤ last) (λ a. is_live window t a ≡ false) log (λ a le. ground arith) past)

module _ {ℓ} {S : Type ℓ} ⦃sets : SortedSets S⦄ (laws : IsSortedSets S) (key : String)
    (window : ℕ) where
  open laws use {entries, expires}

  -- The set of a key against the log, from a time on: what is live in them agrees, however much
  -- that is dead the set still holds.
  pub record IsLogged (s : S) (log : List ℕ) (used : String → Bool) (last : ℕ) : Type 0 where
    pub live_entries :
        (t : ℕ)
        → last ≤ t
        → filter (is_live window t) (scores (entries key t s)) ≡ filter (is_live window t) log
    pub past_entries : (t : ℕ) → last ≤ t → All (λ e. e.0 ≤ last) (entries key t s)
    pub known : (t : ℕ) → last ≤ t → All (λ e. used e.1 ≡ true) (entries key t s)
    pub past_log : All (λ a. a ≤ last) log

  -- The entries after the script has set the time of expiry: those of the moment, or none.
  settled :
      (s : S) (now t : ℕ)
      → 0 < length (entries key now s)
      → now ≤ t
      → (entries key t (sets.pexpire key (window + 1000) now s) ≡ entries key now s)
        ⊎ ((entries key t (sets.pexpire key (window + 1000) now s) ≡ []) × (now + window ≤ t))
  settled s now t some_entry h =
      let after = sets.pexpire key (window + 1000) now s in
      let ((e, expiry, late), same) =
        laws.expiring key (window + 1000) now s (omega arith) some_entry in
      elim (Bool-cases (lives (expires key after) t)) [
        | inl alive ↦ inl (laws.kept key now t after h alive ∙ same)
        | inr dead ↦
            let past : lives (some e) t ≡ false = ap (λ x. lives x t) (sym expiry) ∙ dead in
            inr (laws.gone key t after dead, ground arith)
      ]

  pub settled-IsLogged :
      (s : S) (log : List ℕ) (used : String → Bool) (now : ℕ)
      → 0 < length (entries key now s)
      → ((t : ℕ)
          → now ≤ t
          → filter (is_live window t) (scores (entries key now s)) ≡ filter (is_live window t) log)
      → All (λ e. e.0 ≤ now) (entries key now s)
      → All (λ e. used e.1 ≡ true) (entries key now s)
      → All (λ a. a ≤ now) log
      → IsLogged (sets.pexpire key (window + 1000) now s) log used now
  settled-IsLogged s log used now some_entry same past known past_log = record {
    live_entries = λ t h. elim (settled s now t some_entry h) [
      | inl e ↦ rw e (same t h)
      | inr (e, late) ↦ rw e (sym (none_live window now t log late past_log))
    ];
    past_entries =
        λ t h. elim (settled s now t some_entry h) [ inl e ↦ rw e past | inr (e, late) ↦ rw e tt ];
    known =
        λ t h. elim (settled s now t some_entry h) [ inl e ↦ rw e known | inr (e, late) ↦ rw e tt ];
    past_log = past_log;
  }

  -- The state after the script's first command.
  abbrev pub trimmed : ℕ → S → S
  trimmed now s = sets.zremrangebyscore key (cutoff_of now window) now s

  module _ (s : S) (log : List ℕ) (used : String → Bool) (last now : ℕ)
      (logged : IsLogged s log used last) (later : last ≤ now) where
    pub trimmed-scores : scores (entries key now (trimmed now s)) ≡ filter (is_live window now) log
    trimmed-scores =
        ap scores (laws.removed key (cutoff_of now window) now s)
        ∙ scores-filter now window (entries key now s)
        ∙ logged.live_entries now later

    pub trimmed-count : sets.zcard key now (trimmed now s) ≡ count (is_live window now) log
    trimmed-count =
        laws.counted key now (trimmed now s)
        ∙ sym (length-scores (entries key now (trimmed now s)))
        ∙ ap length trimmed-scores
        ∙ length-filter (is_live window now) log

    pub trimmed-past : All (λ e. e.0 ≤ now) (entries key now (trimmed now s))
    trimmed-past = rw (laws.removed key (cutoff_of now window) now s) (
        All-filter (λ e. e.0 ≤ now) _ (entries key now s)
          (All-imp (λ e. e.0 ≤ last) (λ e. e.0 ≤ now) (entries key now s) (λ e h. omega arith)
            (logged.past_entries now later)))

    pub trimmed-known : All (λ e. used e.1 ≡ true) (entries key now (trimmed now s))
    trimmed-known =
        rw (laws.removed key (cutoff_of now window) now s)
          (All-filter (λ e. used e.1 ≡ true) _ (entries key now s) (logged.known now later))
