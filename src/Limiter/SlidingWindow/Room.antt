-- ===== src/Limiter/SlidingWindow/Room.antt =====
-- When the window of internal/limiter/scripts/sliding_window.lua has room again, by its log.
use mathlib.Core.Path.{subst}
use ratelimit_gateway.Base.{
  ℕ, ◌+◌, ◌-◌, ◌≤◌, ◌<◌, ◌≡◌, refl, ap, ◌∙◌, Bool, true, false, List, [], ◌∷◌, ◌++◌, ltb, filter,
  length, length-filter, filter-filter, lt→ltb, count, count-le, count-le-length, All, All-imp,
  Bool-cases, inl, inr, arith,
}
use ratelimit_gateway.Limiter.SlidingWindow.Log.{
  is_live, has_room, extend, extend_past, log_after, IsAscending, is_within, IsBounded,
}

-- The time of the last request, or of the start.
abbrev pub last_of : ℕ → List ℕ → ℕ
last_of last [] = last
last_of last (t ∷ ts) = last_of t ts

-- Of a bounded log no more is live than the limit.
pub count_live-le :
    (window limit now : ℕ) (log : List ℕ)
    → 0 < window
    → All (λ a. a ≤ now) log
    → IsBounded window limit log
    → count (is_live window now) log ≤ limit
count_live-le window limit now log positive past bounded =
    let start = now + 1 - window in
    let fewer = count-le (is_live window now) (is_within window start) log (
      All-imp (λ a. a ≤ now) (λ a. is_live window now a ≡ true → is_within window start a ≡ true)
        log (λ a le live. ground arith) past) in
    let bound = bounded start in omega arith

pub live-live :
    (window now t : ℕ) (log : List ℕ)
    → now ≤ t
    → filter (is_live window t) (filter (is_live window now) log) ≡ filter (is_live window t) log
live-live window now t log h =
    filter-filter (is_live window now) (is_live window t) log (λ a live. ground arith)

-- When the oldest live request is no longer live, there is room.
pub has_room_again :
    (window limit now later oldest : ℕ) (log rest : List ℕ)
    → now ≤ later
    → oldest + window ≤ later
    → filter (is_live window now) log ≡ oldest ∷ rest
    → count (is_live window now) log ≤ limit
    → has_room window limit log later ≡ true
has_room_again window limit now later oldest log rest h dead live bound =
    let here : is_live window later oldest ≡ false = ground arith in
    let skipped : count (is_live window later) (oldest ∷ rest)
        ≡ 0 + count (is_live window later) rest =
      rw here refl in
    let counts : count (is_live window later) log ≤ length rest = omega (
      arith,
      length-filter (is_live window later) log,
      ap length (live-live window now later log h),
      ap (λ xs. length (filter (is_live window later) xs)) live,
      length-filter (is_live window later) (oldest ∷ rest),
      skipped,
      count-le-length (is_live window later) rest,
    ) in
    lt→ltb _ _ (omega (arith, ap length live, length-filter (is_live window now) log))

IsAscending-le : (a b : ℕ) (ts : List ℕ) → a ≤ b → IsAscending b ts → IsAscending a ts
IsAscending-le a b [] h hs = tt
IsAscending-le a b (t ∷ ts) h (k, ks) = (omega arith, ks)

IsAscending-All : (a : ℕ) (ts : List ℕ) → IsAscending a ts → All (λ t. a ≤ t) ts
IsAscending-All a [] hs = tt
IsAscending-All a (t ∷ ts) (h, hs) = (h, IsAscending-All a ts (IsAscending-le a t ts h hs))

IsAscending-filter :
    (p : ℕ → Bool) (a : ℕ) (ts : List ℕ) → IsAscending a ts → IsAscending a (filter p ts)
IsAscending-filter p a [] hs = tt
IsAscending-filter p a (t ∷ ts) (h, hs) = elim (Bool-cases (p t)) [
  | inl kept ↦ rw kept (h, IsAscending-filter p t ts hs)
  | inr lost ↦ rw lost (IsAscending-filter p a ts (IsAscending-le a t ts h hs))
]

IsAscending-concat :
    (a now : ℕ) (log : List ℕ)
    → a ≤ now
    → IsAscending a log
    → All (λ t. t ≤ now) log
    → IsAscending a (log ++ now ∷ [])
IsAscending-concat a now [] h hs ks = (h, tt)
IsAscending-concat a now (t ∷ ts) h (k, hs) (le, ks) = (k, IsAscending-concat t now ts le hs ks)

-- The log is in the order of time.
pub log_after-IsAscending :
    (window limit last : ℕ) (ts log : List ℕ)
    → All (λ a. a ≤ last) log
    → IsAscending last ts
    → IsAscending 0 log
    → IsAscending 0 (log_after window limit log ts)
log_after-IsAscending window limit last [] log past ascending h = h
log_after-IsAscending window limit last (t ∷ ts) log past (later, ascending) h =
    let earlier = All-imp (λ a. a ≤ last) (λ a. a ≤ t) log (λ a le. omega arith) past in
    log_after-IsAscending window limit t ts (extend window limit log t)
      (extend_past window limit log t earlier) ascending
      (elim (Bool-cases (has_room window limit log t)) [
        | inl room ↦ rw room (IsAscending-concat 0 t log (omega arith) h earlier)
        | inr full ↦ rw full h
      ])

count-All : (p : ℕ → Bool) (xs : List ℕ) → All (λ x. p x ≡ true) xs → count p xs ≡ length xs
count-All p [] hs = refl
count-All p (x ∷ xs) (h, hs) = ground (arith, count-All p xs hs)

-- While the oldest live request is live, so are all, and there is no room if there was none.
pub has_room_not_yet :
    (window limit now later oldest : ℕ) (log rest : List ℕ)
    → now ≤ later
    → later < oldest + window
    → IsAscending 0 log
    → filter (is_live window now) log ≡ oldest ∷ rest
    → has_room window limit log now ≡ false
    → has_room window limit log later ≡ false
has_room_not_yet window limit now later oldest log rest h early ascending live full =
    let sorted : IsAscending 0 (oldest ∷ rest) =
      subst (λ xs. IsAscending 0 xs) live
        (IsAscending-filter (is_live window now) 0 log ascending) in
    let all_live : All (λ a. is_live window later a ≡ true) (oldest ∷ rest) = (
      lt→ltb _ _ early,
      All-imp (λ a. oldest ≤ a) (λ a. is_live window later a ≡ true) rest
          (λ a le. lt→ltb _ _ (omega arith)) (IsAscending-All oldest rest sorted.1),
    ) in
    let same : count (is_live window later) log ≡ count (is_live window now) log = omega (
      arith,
      length-filter (is_live window later) log,
      ap length (live-live window now later log h),
      ap (λ xs. length (filter (is_live window later) xs)) live,
      length-filter (is_live window later) (oldest ∷ rest),
      count-All (is_live window later) (oldest ∷ rest) all_live,
      ap length live,
      length-filter (is_live window now) log,
    ) in
    ap (λ n. ltb n limit) same ∙ full
