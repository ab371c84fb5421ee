-- ===== src/Limiter/Memory/Sets.antt =====
-- Sorted sets in memory.
use mathlib.Core.Path.{subst}
use ratelimit_gateway.Base.{
  All-filter, ℕ, ◌+◌, ◌≤◌, ◌<◌, ◌≡◌, ◌≢◌, refl, ap, sym, ◌∙◌, String, Bool, true, false, not,
  Option, none, some, List, [], ◌∷◌, ◌++◌, filter, if◌then◌else◌, ltb, str_eq, length, All, arith,
  Bool-cases, inl, inr,
}
use ratelimit_gateway.Limiter.Store.{
  SortedSets, IsSortedSets, IsLocal, lives, is_above, first_score, scores,
}
use ratelimit_gateway.Limiter.Memory.{
  put, put-same, put-other, str_eq-ne, lives-earlier, lives-told,
}

pub record SetSlot : Type 0 where
  pub held : List (ℕ × String)
  pub deadline : Option ℕ

abbrev pub no_set : SetSlot
no_set = record { held = []; deadline = none }

-- A set without entries is no longer a key.
abbrev settled : List (ℕ × String) → Option ℕ → SetSlot
settled [] deadline = no_set
settled (e ∷ es) deadline = record { held = e ∷ es; deadline = deadline }

abbrev live_set : ℕ → SetSlot → SetSlot
live_set at slot = if lives slot.deadline at then slot else no_set

abbrev insert_entry : ℕ × String → List (ℕ × String) → List (ℕ × String)
insert_entry e [] = e ∷ []
insert_entry e (x ∷ xs) =
    let rest = insert_entry e xs in if ltb e.0 x.0 then e ∷ x ∷ xs else x ∷ rest

abbrev without : String → List (ℕ × String) → List (ℕ × String)
without member es = filter (λ e. not (str_eq member e.1)) es

abbrev expire_set : ℕ → SetSlot → SetSlot
expire_set deadline slot = settled slot.held (some deadline)

instance abbrev pub memory_sets : SortedSets (String → SetSlot)
memory_sets = record {
  zremrangebyscore = λ key cutoff at s.
      let slot = live_set at (s key) in
      put key (settled (filter (λ e. is_above cutoff e.0) slot.held) slot.deadline) s;
  zcard = λ key at s. length (live_set at (s key)).held;
  zadd = λ key score member at s.
      let slot = live_set at (s key) in
      put key (settled (insert_entry (score, member) (without member slot.held)) slot.deadline) s;
  zrange_first = λ key at s. first_score (live_set at (s key)).held;
  pexpire = λ key ms at s. put key (expire_set (at + ms) (live_set at (s key))) s;
}

live_settled :
    (at : ℕ) (slot : SetSlot) (es : List (ℕ × String))
    → (live_set at (settled es (live_set at slot).deadline)).held ≡ es
live_settled at slot [] = refl
live_settled at slot (e ∷ es) = elim (Bool-cases (lives slot.deadline at)) [
  | inl alive ↦ rw alive (rw alive refl)
  | inr dead ↦ rw dead refl
]

insert_entry-last :
    (score : ℕ) (member : String) (es : List (ℕ × String))
    → All (λ e. (e.0 ≤ score) × (e.1 ≢ member)) es
    → scores (insert_entry (score, member) (without member es)) ≡ scores es ++ score ∷ []
insert_entry-last score member [] h = refl
insert_entry-last score member (e ∷ es) ((below, other), hs) =
    let kept : str_eq member e.1 ≡ false = str_eq-ne member e.1 other in
    let later : ltb score e.0 ≡ false = ground arith in
    rw kept (rw later (ap (◌∷◌ e.0) (insert_entry-last score member es hs)))

All-insert_entry :
    (p : String → Bool) (score : ℕ) (member : String) (es : List (ℕ × String))
    → All (λ e. p e.1 ≡ true) es
    → p member ≡ true
    → All (λ e. p e.1 ≡ true) (insert_entry (score, member) es)
All-insert_entry p score member [] h here = (here, tt)
All-insert_entry p score member (e ∷ es) (h, hs) here = elim (Bool-cases (ltb score e.0)) [
  | inl above ↦ rw above (here, (h, hs))
  | inr below ↦ rw below (h, All-insert_entry p score member es hs here)
]

All-without :
    (p : String → Bool) (member : String) (es : List (ℕ × String))
    → All (λ e. p e.1 ≡ true) es
    → All (λ e. p e.1 ≡ true) (without member es)
All-without p member es h = All-filter (λ e. p e.1 ≡ true) (λ e. not (str_eq member e.1)) es h

held_put :
    (key : String) (at : ℕ) (es : List (ℕ × String)) (s : String → SetSlot)
    → (live_set at (put key (settled es (live_set at (s key)).deadline) s key)).held ≡ es
held_put key at es s =
    ap (λ slot. (live_set at slot).held)
      (put-same key (settled es (live_set at (s key)).deadline) s)
    ∙ live_settled at (s key) es

live_set-kept :
    (at t : ℕ) (slot : SetSlot)
    → at ≤ t
    → lives slot.deadline t ≡ true
    → (live_set t slot).held ≡ (live_set at slot).held
live_set-kept at t slot h alive = rw (alive, lives-earlier slot.deadline at t h alive) refl

settled-told :
    (at ms : ℕ) (es : List (ℕ × String))
    → 0 < ms
    → 0 < length es
    → ((settled es (some (at + ms))).deadline ≡ some (at + ms))
      × ((live_set at (settled es (some (at + ms)))).held ≡ es)
settled-told at ms [] wide some_entry = absurd (omega arith)
settled-told at ms (e ∷ es) wide some_entry = (refl, rw (lives-told at ms wide) refl)

pub memory_sets-IsSortedSets : IsSortedSets (String → SetSlot)
memory_sets-IsSortedSets = record {
  entries = λ key t s. (live_set t (s key)).held;
  expires = λ key s. (s key).deadline;
  kept = λ key at t s h alive. live_set-kept at t (s key) h alive;
  gone = λ key t s dead. rw dead refl;
  removed = λ key cutoff at s. held_put key at _ s;
  counted = λ key at s. refl;
  added = λ key score member at s h.
      ap scores (held_put key at _ s) ∙ insert_entry-last score member (live_set at (s key)).held h;
  added_member = λ key score member at s p h here.
      subst (All (λ e. p e.1 ≡ true)) (sym (held_put key at _ s))
        (All-insert_entry p score member _ (All-without p member _ h) here);
  first = λ key at s. refl;
  expiring = λ key ms at s wide some_entry.
      let (told, same) = settled-told at ms (live_set at (s key)).held wide some_entry in
      let there = put-same key (expire_set (at + ms) (live_set at (s key))) s in
      (
        (at + ms, ap (λ slot. slot.deadline) there ∙ told, omega arith),
        ap (λ slot. (live_set at slot).held) there ∙ same,
      );
}

abbrev pub no_sets : String → SetSlot
no_sets key = no_set

pub entries-no_sets : (key : String) (t : ℕ) → memory_sets-IsSortedSets.entries key t no_sets ≡ []
unfolding memory_sets-IsSortedSets
entries-no_sets key t = refl

pub memory_sets-IsLocal : IsLocal (String → SetSlot) memory_sets-IsSortedSets
unfolding memory_sets-IsSortedSets
memory_sets-IsLocal = record {
  removed_other = λ key other cutoff at t s ne.
      ap (λ slot. (live_set t slot).held) (put-other key other _ s ne);
  added_other = λ key other score member at t s ne.
      ap (λ slot. (live_set t slot).held) (put-other key other _ s ne);
  expiring_other =
      λ key other ms at t s ne. ap (λ slot. (live_set t slot).held) (put-other key other _ s ne);
}
