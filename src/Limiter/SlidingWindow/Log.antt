-- ===== src/Limiter/SlidingWindow/Log.antt =====
-- What internal/limiter/scripts/sliding_window.lua promises, without a store: the log of the
-- admitted times decides.
use mathlib.Core.List.{append-nil, append_assoc}
use ratelimit_gateway.Base.{
  ℕ, ◌+◌, ◌≤◌, ◌<◌, ◌≡◌, Bool, true, ◌&&◌, List, [], ◌∷◌, ◌++◌, if◌then◌else◌, ltb, leb, sym, ◌∙◌,
  count, count-append, count-le, All, All-append, Bool-cases, inl, inr, arith, ltb→lt, All-each,
}

-- An admitted request still counts.
abbrev pub is_live : ℕ → ℕ → ℕ → Bool
is_live window now a = ltb now (a + window)

abbrev pub has_room : ℕ → ℕ → List ℕ → ℕ → Bool
has_room window limit log now = ltb (count (is_live window now) log) limit

abbrev pub extend : ℕ → ℕ → List ℕ → ℕ → List ℕ
extend window limit log now = if has_room window limit log now then log ++ now ∷ [] else log

-- The decisions on requests at these times, and the log after them.
abbrev pub decisions : ℕ → ℕ → List ℕ → List ℕ → List Bool
decisions window limit log [] = []
decisions window limit log (t ∷ ts) =
    has_room window limit log t ∷ decisions window limit (extend window limit log t) ts

abbrev pub log_after : ℕ → ℕ → List ℕ → List ℕ → List ℕ
log_after window limit log [] = log
log_after window limit log (t ∷ ts) = log_after window limit (extend window limit log t) ts

-- The times do not fall, from a time on.
abbrev pub IsAscending : ℕ → List ℕ → Type 0
IsAscending last [] = Unit
IsAscending last (t ∷ ts) = (last ≤ t) × IsAscending t ts

-- A time within a window's length from a start.
abbrev pub is_within : ℕ → ℕ → ℕ → Bool
is_within window start a = leb start a && ltb a (start + window)

abbrev pub IsBounded : ℕ → ℕ → List ℕ → Type 0
IsBounded window limit log = (start : ℕ) → count (is_within window start) log ≤ limit

-- What counts in a window that has begun and not ended is still live.
within-live :
    (window start now a : ℕ)
    → now < start + window
    → is_within window start a ≡ true
    → is_live window now a ≡ true
within-live window start now a h within = ground arith

count_within-room :
    (window limit start now : ℕ) (log : List ℕ)
    → now < start + window
    → has_room window limit log now ≡ true
    → count (is_within window start) log < limit
count_within-room window limit start now log h room =
    let fewer = count-le (is_within window start) (is_live window now) log (
      All-each (λ a. is_within window start a ≡ true → is_live window now a ≡ true)
        (λ a. within-live window start now a h) log) in
    let bound = ltb→lt _ _ room in omega arith

extend-IsBounded :
    (window limit : ℕ) (log : List ℕ) (now : ℕ)
    → IsBounded window limit log
    → IsBounded window limit (extend window limit log now)
extend-IsBounded window limit log now h start = elim (Bool-cases (has_room window limit log now)) [
  | inr full ↦ rw full (h start)
  | inl room ↦ rw room (
      rw (count-append (is_within window start) log (now ∷ []))
        (elim (Bool-cases (is_within window start now)) [
          | inl within ↦ rw within (
              let early : now < start + window = ground arith in
              let fewer = count_within-room window limit start now log early room in omega arith)
          | inr outside ↦ rw outside (let fewer = h start in omega arith)
        ]))
]

pub log_after-IsBounded :
    (window limit : ℕ) (ts log : List ℕ)
    → IsBounded window limit log
    → IsBounded window limit (log_after window limit log ts)
log_after-IsBounded window limit [] log h = h
log_after-IsBounded window limit (t ∷ ts) log h =
    log_after-IsBounded window limit ts (extend window limit log t)
      (extend-IsBounded window limit log t h)

pub extend_past :
    (window limit : ℕ) (log : List ℕ) (now : ℕ)
    → All (λ a. a ≤ now) log
    → All (λ a. a ≤ now) (extend window limit log now)
extend_past window limit log now past = elim (Bool-cases (has_room window limit log now)) [
  | inl room ↦ rw room (All-append (λ a. a ≤ now) log (now ∷ []) past (omega arith, tt))
  | inr full ↦ rw full past
]

-- In any stretch of time as long as the window, wherever it begins, no more requests are admitted
-- than the limit.
pub log_after-bound :
    (window limit start : ℕ) (ts : List ℕ)
    → count (is_within window start) (log_after window limit [] ts) ≤ limit
log_after-bound window limit start ts =
    log_after-IsBounded window limit ts [] (λ begin. omega arith) start

-- Of these times those that were decided with `true`.
abbrev pub admitted : List ℕ → List Bool → List ℕ
admitted [] bs = []
admitted (t ∷ ts) [] = []
admitted (t ∷ ts) (b ∷ bs) = let rest = admitted ts bs in if b then t ∷ rest else rest

pub admitted-decisions :
    (window limit : ℕ) (log ts : List ℕ)
    → log ++ admitted ts (decisions window limit log ts) ≡ log_after window limit log ts
admitted-decisions window limit log [] = append-nil log
admitted-decisions window limit log (t ∷ ts) = elim (Bool-cases (has_room window limit log t)) [
  | inl room ↦ rw room (
      sym (append_assoc log (t ∷ []) (admitted ts (decisions window limit (log ++ t ∷ []) ts)))
      ∙ admitted-decisions window limit (log ++ t ∷ []) ts)
  | inr full ↦ rw full (admitted-decisions window limit log ts)
]
