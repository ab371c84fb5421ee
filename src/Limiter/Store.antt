-- ===== src/Limiter/Store.antt =====
-- What the scripts of internal/limiter/scripts use of Redis: the commands, and what their
-- documentation says of them. A script runs alone, so each of its commands is a step on the state;
-- the time is the server's, in milliseconds, and taken to be the one that the caller passes on.
use ratelimit_gateway.Number.{Number, le}
use ratelimit_gateway.Base.{
  ℕ, ◌+◌, ◌≤◌, ◌<◌, ◌≡◌, ◌≢◌, String, Bool, true, false, not, Option, none, some, List, [], ◌∷◌,
  ◌++◌, ◌⊎◌, map, filter, ltb, leb, All, length,
}

-- A key with this time of expiry is still there.
abbrev pub lives : Option ℕ → ℕ → Bool
lives none t = true
lives (some e) t = ltb t e

-- The scores above the end of a range that `ZREMRANGEBYSCORE` takes; `none` is a negative end.
abbrev pub is_above : Option ℕ → ℕ → Bool
is_above none score = true
is_above (some cutoff) score = not (leb score cutoff)

-- Sorted sets with a time to live.
pub record SortedSets {ℓ} (S : Type ℓ) : Type ℓ where
  pub zremrangebyscore : String → Option ℕ → ℕ → S → S
  pub zcard : String → ℕ → S → ℕ
  pub zadd : String → ℕ → String → ℕ → S → S
  -- `ZRANGE key 0 0 WITHSCORES`: the score.
  pub zrange_first : String → ℕ → S → Option ℕ
  pub pexpire : String → ℕ → ℕ → S → S

abbrev pub first_score : List (ℕ × String) → Option ℕ
first_score [] = none
first_score (e ∷ es) = some e.0

abbrev pub scores : List (ℕ × String) → List ℕ
scores es = map (λ e. e.0) es

-- The documented behaviour, by the entries of a key at a time, in the order of their scores, and
-- the time at which the key expires.
pub record IsSortedSets {ℓ} (S : Type ℓ) ⦃sets : SortedSets S⦄ : Type ℓ where
  pub entries : String → ℕ → S → List (ℕ × String)
  pub expires : String → S → Option ℕ
  pub kept :
      (key : String) (at t : ℕ) (s : S)
      → at ≤ t
      → lives (expires key s) t ≡ true
      → entries key t s ≡ entries key at s
  pub gone : (key : String) (t : ℕ) (s : S) → lives (expires key s) t ≡ false → entries key t s ≡ []
  pub removed :
      (key : String) (cutoff : Option ℕ) (at : ℕ) (s : S)
      → entries key at (sets.zremrangebyscore key cutoff at s)
        ≡ filter (λ e. is_above cutoff e.0) (entries key at s)
  pub counted : (key : String) (at : ℕ) (s : S) → sets.zcard key at s ≡ length (entries key at s)
  -- An entry with a new member and a score that no other exceeds comes last, up to the order of
  -- the entries of one score.
  pub added :
      (key : String) (score : ℕ) (member : String) (at : ℕ) (s : S)
      → All (λ e. (e.0 ≤ score) × (e.1 ≢ member)) (entries key at s)
      → scores (entries key at (sets.zadd key score member at s))
        ≡ scores (entries key at s) ++ score ∷ []
  pub added_member :
      (key : String) (score : ℕ) (member : String) (at : ℕ) (s : S) (p : String → Bool)
      → All (λ e. p e.1 ≡ true) (entries key at s)
      → p member ≡ true
      → All (λ e. p e.1 ≡ true) (entries key at (sets.zadd key score member at s))
  pub first :
      (key : String) (at : ℕ) (s : S) → sets.zrange_first key at s ≡ first_score (entries key at s)
  -- The key of a set that is not empty expires no earlier than it is told to.
  pub expiring :
      (key : String) (ms at : ℕ) (s : S)
      → 0 < ms
      → 0 < length (entries key at s)
      → ((e : ℕ) × (expires key (sets.pexpire key ms at s) ≡ some e) × (at + ms ≤ e))
        × (entries key at (sets.pexpire key ms at s) ≡ entries key at s)

-- A command changes only the key that it names.
pub record IsLocal {ℓ} (S : Type ℓ) ⦃sets : SortedSets S⦄ (laws : IsSortedSets S) : Type ℓ where
  pub removed_other :
      (key other : String) (cutoff : Option ℕ) (at t : ℕ) (s : S)
      → other ≢ key
      → laws.entries other t (sets.zremrangebyscore key cutoff at s) ≡ laws.entries other t s
  pub added_other :
      (key other : String) (score : ℕ) (member : String) (at t : ℕ) (s : S)
      → other ≢ key
      → laws.entries other t (sets.zadd key score member at s) ≡ laws.entries other t s
  pub expiring_other :
      (key other : String) (ms at t : ℕ) (s : S)
      → other ≢ key
      → laws.entries other t (sets.pexpire key ms at s) ≡ laws.entries other t s

-- Counters with a time to live.
pub record Counters {ℓ} (S : Type ℓ) : Type ℓ where
  pub incr : String → ℕ → S → ℕ × S
  pub pexpire : String → ℕ → ℕ → S → S

-- The documented behaviour, by the value of a key at a time, zero for a key that is not there, and
-- the time at which the key expires.
pub record IsCounters {ℓ} (S : Type ℓ) ⦃counters : Counters S⦄ : Type ℓ where
  pub value : String → ℕ → S → ℕ
  pub expires : String → S → Option ℕ
  pub kept :
      (key : String) (at t : ℕ) (s : S)
      → at ≤ t
      → lives (expires key s) t ≡ true
      → value key t s ≡ value key at s
  pub counted : (key : String) (at : ℕ) (s : S) → (counters.incr key at s).0 ≡ value key at s + 1
  pub increased :
      (key : String) (at : ℕ) (s : S) → value key at (counters.incr key at s).1 ≡ value key at s + 1
  -- `INCR` leaves the time to live of a key that is there.
  pub increased_expires :
      (key : String) (at : ℕ) (s : S)
      → 0 < value key at s
      → expires key (counters.incr key at s).1 ≡ expires key s
  pub expiring :
      (key : String) (ms at : ℕ) (s : S)
      → 0 < ms
      → 0 < value key at s
      → ((e : ℕ) × (expires key (counters.pexpire key ms at s) ≡ some e) × (at + ms ≤ e))
        × (value key at (counters.pexpire key ms at s) ≡ value key at s)
  -- Other keys are left alone.
  pub others_increased :
      (key other : String) (at t : ℕ) (s : S)
      → other ≢ key
      → (value other t (counters.incr key at s).1 ≡ value other t s)
        × (expires other (counters.incr key at s).1 ≡ expires other s)
  pub others_expiring :
      (key other : String) (ms at t : ℕ) (s : S)
      → other ≢ key
      → (value other t (counters.pexpire key ms at s) ≡ value other t s)
        × (expires other (counters.pexpire key ms at s) ≡ expires other s)

-- Hashes with the two fields of a bucket, as numbers; the text that Redis keeps of a number reads
-- back as that number.
pub record Hashes {ℓ κ} (N : Type κ) (S : Type ℓ) : Type (ℓ ⊔ κ) where
  pub hmget : String → ℕ → S → Option N × Option N
  pub hset : String → N → N → ℕ → S → S
  pub pexpire : String → N → ℕ → S → S

-- The documented behaviour of the two commands that end a script.
pub record IsHashes {ℓ κ} (N : Type κ) ⦃num : Number N⦄ (S : Type ℓ) ⦃hashes : Hashes N S⦄
    : Type (ℓ ⊔ κ) where
  -- From then on the fields are there, or the key is gone.
  pub stored :
      (key : String) (tokens updated ttl : N) (at t : ℕ) (s : S)
      → at ≤ t
      → let read =
          hashes.hmget key t (hashes.pexpire key ttl at (hashes.hset key tokens updated at s)) in
        (read ≡ (some tokens, some updated)) ⊎ (read ≡ (none, none))
  -- They are there at once, with a second and more to live.
  pub stored_now :
      (key : String) (tokens updated ttl : N) (at : ℕ) (s : S)
      → le (num.nat 1000) ttl ≡ true
      → hashes.hmget key at (hashes.pexpire key ttl at (hashes.hset key tokens updated at s))
        ≡ (some tokens, some updated)
