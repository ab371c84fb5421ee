-- ===== src/Limiter/Memory/Buckets.antt =====
-- Hashes in memory, with numbers in thousandths.
use ratelimit_gateway.Base.{
  ℕ, ◌-◌, ◌≡◌, refl, ap, ◌∙◌, String, Bool, true, Option, none, some, if◌then◌else◌, arith,
  Bool-cases, inl, inr,
}
use ratelimit_gateway.Number.{le}
use ratelimit_gateway.Number.Fixed.{Fixed, fixed_number}
use ratelimit_gateway.Limiter.Store.{Hashes, IsHashes}
use ratelimit_gateway.Limiter.Memory.{put, put-same}

-- The fields, and the time at which the time to live was set, with the time to live.
pub record HashSlot : Type 0 where
  pub fields : Option Fixed × Option Fixed
  pub expiry : Option (ℕ × Fixed)

abbrev pub no_hash : HashSlot
no_hash = record { fields = (none, none); expiry = none }

abbrev is_alive : ℕ → Option (ℕ × Fixed) → Bool
is_alive t none = true
is_alive t (some e) = fixed_number.lt (fixed_number.nat (t - e.0)) e.1

abbrev live_hash : ℕ → HashSlot → HashSlot
live_hash at slot = if is_alive at slot.expiry then slot else no_hash

instance abbrev pub bucket_store : Hashes Fixed (String → HashSlot)
bucket_store = record {
  hmget = λ key at s. (live_hash at (s key)).fields;
  hset = λ key tokens updated at s.
      put key (record (live_hash at (s key)) { fields = (some tokens, some updated) }) s;
  pexpire = λ key ttl at s. put key (record (live_hash at (s key)) { expiry = some (at, ttl) }) s;
}

abbrev with_fields : Fixed → Fixed → HashSlot → HashSlot
with_fields tokens updated slot = record slot { fields = (some tokens, some updated) }

abbrev told_slot : ℕ → Fixed → HashSlot → HashSlot
told_slot at ttl slot = record slot { expiry = some (at, ttl) }

live_with_fields :
    (at : ℕ) (tokens updated : Fixed) (slot : HashSlot)
    → live_hash at (with_fields tokens updated (live_hash at slot))
      ≡ with_fields tokens updated (live_hash at slot)
live_with_fields at tokens updated slot = elim (Bool-cases (is_alive at slot.expiry)) [
  | inl alive ↦ rw alive (rw alive refl)
  | inr dead ↦ rw dead refl
]

-- The slot of the key after the two commands.
stored_slot :
    (key : String) (tokens updated ttl : Fixed) (at : ℕ) (s : String → HashSlot)
    → bucket_store.pexpire key ttl at (bucket_store.hset key tokens updated at s) key
      ≡ told_slot at ttl (with_fields tokens updated (live_hash at (s key)))
stored_slot key tokens updated ttl at s =
    let set = with_fields tokens updated (live_hash at (s key)) in
    put-same key (told_slot at ttl (live_hash at (put key set s key))) (put key set s)
    ∙ ap (λ slot. told_slot at ttl (live_hash at slot)) (put-same key set s)
    ∙ ap (told_slot at ttl) (live_with_fields at tokens updated (s key))

long_positive :
    (ttl : Fixed)
    → le (fixed_number.nat 1000) ttl ≡ true
    → fixed_number.lt (fixed_number.nat 0) ttl ≡ true
long_positive (Fixed.pos n) long = ground arith
long_positive (Fixed.negsuc n) long = ground arith
long_positive Fixed.nan long = ground arith

pub bucket_store-IsHashes : IsHashes Fixed (String → HashSlot)
bucket_store-IsHashes = record {
  stored = λ key tokens updated ttl at t s h.
      rw (stored_slot key tokens updated ttl at s)
        (elim (Bool-cases (is_alive t (some (at, ttl)))) [
          | inl alive ↦ rw alive (inl refl)
          | inr dead ↦ rw dead (inr refl)
        ]);
  stored_now = λ key tokens updated ttl at s long. rw (stored_slot key tokens updated ttl at s) (
      let zero_now : at - at ≡ 0 = omega arith in
      let now : is_alive at (some (at, ttl)) ≡ true =
        ap (λ n. fixed_number.lt (fixed_number.nat n) ttl) zero_now ∙ long_positive ttl long in
      rw now refl);
}

abbrev pub no_hashes : String → HashSlot
no_hashes key = no_hash
