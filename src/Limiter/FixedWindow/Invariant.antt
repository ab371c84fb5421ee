-- ===== src/Limiter/FixedWindow/Invariant.antt =====
-- The counters that internal/limiter/scripts/fixed_window.lua keeps, against the earlier requests.
use native.Mathlib.Nat.{div-mul-le_self}
use text.Mathlib.TextLemmas.{append_inj, append-nil}
use ratelimit_gateway.Base.{
  ℕ, zero, suc, ◌+◌, ◌*◌, ◌/◌, ◌≤◌, ◌<◌, ◌≡◌, ◌≢◌, refl, ap, sym, ◌∙◌, String, true, List, [], ◌∷◌,
  if◌then◌else◌, ltb, ◌==◌, count, ==_iff, Bool-cases, ◌⊎◌, inl, inr, arith,
}
use ratelimit_gateway.Limiter.Store.{Counters, IsCounters, lives}
use ratelimit_gateway.Limiter.FixedWindow.{window_key, fixed_window}
use ratelimit_gateway.Limiter.FixedWindow.Log.{in_window, earlier_of, same_window}

times-le : (n window : ℕ) → 0 < window → n ≤ n * window
times-le n zero h = absurd (omega arith)
times-le n (suc w) h = ground arith

module _ {ℓ} {S : Type ℓ} ⦃counters : Counters S⦄ (laws : IsCounters S) (text_of : ℕ → String)
    (bound : ℕ) (distinct : (i j : ℕ) → i < bound → j < bound → text_of i ≡ text_of j → i ≡ j)
    (prefix : String) (window : ℕ) (wide : 0 < window) where
  open laws use {value, expires}

  abbrev key_at : ℕ → String
  key_at t = window_key text_of prefix (t / window)

  index-lt : (t : ℕ) → t < bound → t / window < bound
  index-lt t h =
      let l = div-mul-le_self t window in let k = times-le (t / window) window wide in omega arith

  other_key :
      (i j : ℕ)
      → i < bound
      → j < bound
      → i ≢ j
      → window_key text_of prefix i ≢ window_key text_of prefix j
  other_key i j small_i small_j ne e = ne (
      distinct i j small_i small_j (
        sym (append-nil (text_of i))
        ∙ (append_inj {s₁ = ":"} {s₂ = ":"} (append_inj {s₁ = prefix} {s₂ = prefix} e refl).1
            refl).1
        ∙ append-nil (text_of j)))

  -- From a time on the counter of each window holds the number of its requests, and lasts as long
  -- as the window.
  pub record IsCounting (s : S) (earlier : List ℕ) (last : ℕ) : Type 0 where
    pub counts : (t : ℕ) → last ≤ t → t < bound → value (key_at t) t s ≡ earlier_of window earlier t
    pub lasting :
        (t : ℕ)
        → last ≤ t
        → t < bound
        → 0 < earlier_of window earlier t
        → lives (expires (key_at t) s) t ≡ true

  module _ (s : S) (earlier : List ℕ) (last now : ℕ) (counting : IsCounting s earlier last)
      (later : last ≤ now) (small : now < bound) where
    abbrev counted_up : S
    counted_up = (counters.incr (key_at now) now s).1

    abbrev changed : S
    changed =
        if (counters.incr (key_at now) now s).0 == 1
        then counters.pexpire (key_at now) window now counted_up
        else counted_up

    count_now : (counters.incr (key_at now) now s).0 ≡ earlier_of window earlier now + 1
    count_now = laws.counted (key_at now) now s ∙ ap (λ n. n + 1) (counting.counts now later small)

    value_now : value (key_at now) now counted_up ≡ earlier_of window earlier now + 1
    value_now =
        laws.increased (key_at now) now s ∙ ap (λ n. n + 1) (counting.counts now later small)

    -- The counter of this window after the script.
    changed-now :
        (value (key_at now) now changed ≡ earlier_of window earlier now + 1)
        × ((t : ℕ)
            → now ≤ t
            → t < bound
            → t / window ≡ now / window
            → lives (expires (key_at now) changed) t ≡ true)
    changed-now = elim (Bool-cases ((counters.incr (key_at now) now s).0 == 1)) [
      | inl first ↦
          let ((e, expiry, late), same) =
            laws.expiring (key_at now) window now counted_up wide (omega (arith, value_now)) in
          rw first (
            same ∙ value_now,
            λ t h small_t in_same.
                rw expiry (let early = same_window window t now wide in_same in ground arith),
          )
      | inr again ↦
          let some_earlier : 0 < earlier_of window earlier now =
            let n = count_now in ground arith in
          rw again (
            value_now,
            λ t h small_t in_same.
                ap (λ x. lives x t)
                  (laws.increased_expires (key_at now) now s
                    (omega (arith, counting.counts now later small)))
                ∙ ap (λ i. lives (expires (window_key text_of prefix i) s) t) (sym in_same)
                ∙ counting.lasting t (omega arith) small_t (rw in_same some_earlier),
          )
    ]

    -- A counter of another window is left alone.
    changed-other :
        (t : ℕ)
        → t < bound
        → t / window ≢ now / window
        → (value (key_at t) t changed ≡ value (key_at t) t s)
          × (expires (key_at t) changed ≡ expires (key_at t) s)
    changed-other t small_t other =
        let ne =
          other_key (t / window) (now / window) (index-lt t small_t) (index-lt now small) other in
        let up = laws.others_increased (key_at now) (key_at t) now t s ne in
        let kept = laws.others_expiring (key_at now) (key_at t) window now t counted_up ne in
        elim (Bool-cases ((counters.incr (key_at now) now s).0 == 1)) [
          | inl first ↦ rw first (kept.0 ∙ up.0, kept.1 ∙ up.1)
          | inr again ↦ rw again up
        ]

    counted_once :
        count (in_window window (now / window)) (now ∷ earlier) ≡ earlier_of window earlier now + 1
    counted_once = ground arith

    earlier_of-now :
        (t : ℕ)
        → t / window ≡ now / window
        → earlier_of window (now ∷ earlier) t ≡ earlier_of window earlier now + 1
    earlier_of-now t same = ap (λ i. count (in_window window i) (now ∷ earlier)) same ∙ counted_once

    earlier_of-other :
        (t : ℕ)
        → t / window ≢ now / window
        → earlier_of window (now ∷ earlier) t ≡ earlier_of window earlier t
    earlier_of-other t other = ground arith

    window-cases : (t : ℕ) → (t / window ≡ now / window) ⊎ (t / window ≢ now / window)
    window-cases t = elim (Bool-cases (t / window == now / window)) [
      | inl same ↦ inl ((==_iff (t / window) (now / window)).0 same)
      | inr other ↦ inr (λ e. let same = (==_iff (t / window) (now / window)).1 e in ground arith)
    ]

    alive :
        (t : ℕ)
        → now ≤ t
        → t < bound
        → t / window ≡ now / window
        → lives (expires (key_at t) changed) t ≡ true
    alive t h small_t same =
        ap (λ i. lives (expires (window_key text_of prefix i) changed) t) same
        ∙ changed-now.1 t h small_t same

    changed-IsCounting : IsCounting changed (now ∷ earlier) now
    changed-IsCounting = record {
      counts = λ t h small_t. elim (window-cases t) [
        | inl same ↦
            laws.kept (key_at t) now t changed h (alive t h small_t same)
            ∙ ap (λ i. value (window_key text_of prefix i) now changed) same
            ∙ changed-now.0
            ∙ sym (earlier_of-now t same)
        | inr other ↦
            (changed-other t small_t other).0
            ∙ counting.counts t (omega arith) small_t
            ∙ sym (earlier_of-other t other)
      ];
      lasting = λ t h small_t some_earlier. elim (window-cases t) [
        | inl same ↦ alive t h small_t same
        | inr other ↦
            ap (λ x. lives x t) (changed-other t small_t other).1
            ∙ counting.lasting t (omega arith) small_t
                (rw (earlier_of-other t other) at some_earlier)
      ];
    }

    pub fixed_window-Step :
        (limit : ℕ)
        → let (reply, after) = fixed_window text_of prefix now window limit s in
          ((reply.allowed == 1) ≡ ltb (earlier_of window earlier now) limit)
          × IsCounting after (now ∷ earlier) now
    unfolding fixed_window
    fixed_window-Step limit = (let e = count_now in ground arith, changed-IsCounting)

  pub absent-IsCounting : (s : S) → ((key : String) (t : ℕ) → value key t s ≡ 0) → IsCounting s [] 0
  absent-IsCounting s absent = record {
    counts = λ t h small_t. absent (key_at t) t;
    lasting = λ t h small_t some_earlier. absurd (omega arith);
  }
