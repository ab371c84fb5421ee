-- ===== src/Limiter/Memory/Counts.antt =====
-- Counters in memory.
use ratelimit_gateway.Base.{
  ℕ, ◌+◌, ◌<◌, ◌≡◌, refl, ap, ◌∙◌, String, false, Option, none, some, if◌then◌else◌, ◌==◌, arith,
  Bool-cases, inl, inr,
}
use ratelimit_gateway.Limiter.Store.{Counters, IsCounters, lives}
use ratelimit_gateway.Limiter.Memory.{put, put-same, put-other, lives-earlier, lives-told}

-- A key that is not there counts nothing.
pub record CountSlot : Type 0 where
  pub counted : ℕ
  pub deadline : Option ℕ

abbrev pub no_count : CountSlot
no_count = record { counted = 0; deadline = none }

abbrev live_count : ℕ → CountSlot → CountSlot
live_count at slot = if lives slot.deadline at then slot else no_count

abbrev count_up : CountSlot → CountSlot
count_up slot = record slot { counted = slot.counted + 1 }

abbrev expire_count : ℕ → CountSlot → CountSlot
expire_count deadline slot = record slot {
  deadline = if slot.counted == 0 then none else some deadline;
}

instance abbrev pub memory_counters : Counters (String → CountSlot)
memory_counters = record {
  incr = λ key at s.
      ((live_count at (s key)).counted + 1, put key (count_up (live_count at (s key))) s);
  pexpire = λ key ms at s. put key (expire_count (at + ms) (live_count at (s key))) s;
}

live_count_up :
    (at : ℕ) (slot : CountSlot)
    → (live_count at (count_up (live_count at slot))).counted ≡ (live_count at slot).counted + 1
live_count_up at slot = elim (Bool-cases (lives slot.deadline at)) [
  | inl alive ↦ rw alive (rw alive refl)
  | inr dead ↦ rw dead refl
]

some_alive :
    (at : ℕ) (slot : CountSlot) → 0 < (live_count at slot).counted → live_count at slot ≡ slot
some_alive at slot some_count = elim (Bool-cases (lives slot.deadline at)) [
  | inl alive ↦ rw alive refl
  | inr dead ↦
      let none_counted : (live_count at slot).counted ≡ 0 = rw dead refl in absurd (omega arith)
]

expire_count-told :
    (at ms : ℕ) (slot : CountSlot)
    → 0 < ms
    → 0 < slot.counted
    → ((expire_count (at + ms) slot).deadline ≡ some (at + ms))
      × ((live_count at (expire_count (at + ms) slot)).counted ≡ slot.counted)
expire_count-told at ms slot wide some_count =
    let there : (slot.counted == 0) ≡ false = ground arith in
    rw there (refl, rw (lives-told at ms wide) refl)

pub memory_counters-IsCounters : IsCounters (String → CountSlot)
memory_counters-IsCounters = record {
  value = λ key t s. (live_count t (s key)).counted;
  expires = λ key s. (s key).deadline;
  kept = λ key at t s h alive. rw (alive, lives-earlier (s key).deadline at t h alive) refl;
  counted = λ key at s. refl;
  increased = λ key at s.
      ap (λ slot. (live_count at slot).counted) (put-same key (count_up (live_count at (s key))) s)
      ∙ live_count_up at (s key);
  increased_expires = λ key at s some_count.
      ap (λ slot. slot.deadline) (put-same key (count_up (live_count at (s key))) s)
      ∙ ap (λ slot. slot.deadline) (some_alive at (s key) some_count);
  expiring = λ key ms at s wide some_count.
      let (told, same) = expire_count-told at ms (live_count at (s key)) wide some_count in
      let there = put-same key (expire_count (at + ms) (live_count at (s key))) s in
      (
        (at + ms, ap (λ slot. slot.deadline) there ∙ told, omega arith),
        ap (λ slot. (live_count at slot).counted) there ∙ same,
      );
  others_increased = λ key other at t s ne.
      let same = put-other key other (count_up (live_count at (s key))) s ne in
      (ap (λ slot. (live_count t slot).counted) same, ap (λ slot. slot.deadline) same);
  others_expiring = λ key other ms at t s ne.
      let same = put-other key other (expire_count (at + ms) (live_count at (s key))) s ne in
      (ap (λ slot. (live_count t slot).counted) same, ap (λ slot. slot.deadline) same);
}

abbrev pub no_counts : String → CountSlot
no_counts key = no_count

pub value-no_counts : (key : String) (t : ℕ) → memory_counters-IsCounters.value key t no_counts ≡ 0
unfolding memory_counters-IsCounters
value-no_counts key t = refl
