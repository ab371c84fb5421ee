-- ===== src/Explain/Marks/Order.antt =====
-- The order in which `markTerms` of explain.js tries the terms.
use ratelimit_gateway.Base.{
  ℕ, ◌≤◌, ◌≡◌, refl, String, List, [], ◌∷◌, leb, All, Bool-cases, inl, inr, arith,
}
use ratelimit_gateway.Explain.Words.{text_length}
use ratelimit_gateway.Explain.Marks.{includes, insert_term, longest_first}

-- The terms stand in the order of their lengths, the longest first.
abbrev pub IsDescending : List String → Type 0
IsDescending [] = Unit
IsDescending (t ∷ ts) = All (λ u. text_length u ≤ text_length t) ts × IsDescending ts

All-insert_term {κ} :
    (P : String → Type κ) (t : String) (ts : List String)
    → P t
    → All P ts
    → All P (insert_term t ts)
All-insert_term P t [] h hs = (h, tt)
All-insert_term P t (u ∷ us) h (k, ks) = elim (Bool-cases (leb (text_length u) (text_length t))) [
  | inl shorter ↦ rw shorter (h, (k, ks))
  | inr longer ↦ rw longer (k, All-insert_term P t us h ks)
]

pub All-longest_first {κ} :
    (P : String → Type κ) (ts : List String) → All P ts → All P (longest_first ts)
unfolding longest_first
All-longest_first P [] hs = hs
All-longest_first P (t ∷ ts) (h, hs) =
    All-insert_term P t (longest_first ts) h (All-longest_first P ts hs)

All-le_trans :
    (m n : ℕ) (ts : List String)
    → m ≤ n
    → All (λ u. text_length u ≤ m) ts
    → All (λ u. text_length u ≤ n) ts
All-le_trans m n [] h hs = tt
All-le_trans m n (t ∷ ts) h (k, ks) = (omega arith, All-le_trans m n ts h ks)

insert_term-IsDescending :
    (t : String) (ts : List String) → IsDescending ts → IsDescending (insert_term t ts)
insert_term-IsDescending t [] hs = (tt, tt)
insert_term-IsDescending t (u ∷ us) (h, hs) =
    elim (Bool-cases (leb (text_length u) (text_length t))) [
      | inl shorter ↦ rw shorter (
        (ground arith, All-le_trans (text_length u) (text_length t) us (ground arith) h),
        (h, hs),
      )
      | inr longer ↦ rw longer (
        All-insert_term (λ v. text_length v ≤ text_length u) t us (ground arith) h,
        insert_term-IsDescending t us hs,
      )
    ]

pub longest_first-IsDescending : (ts : List String) → IsDescending (longest_first ts)
unfolding longest_first
longest_first-IsDescending [] = tt
longest_first-IsDescending (t ∷ ts) =
    insert_term-IsDescending t (longest_first ts) (longest_first-IsDescending ts)

includes-insert_term :
    (t x : String) (ts : List String) → includes (insert_term t ts) x ≡ includes (t ∷ ts) x
includes-insert_term t x [] = refl
includes-insert_term t x (u ∷ us) = ground (arith, includes-insert_term t x us)

pub includes-longest_first :
    (x : String) (ts : List String) → includes (longest_first ts) x ≡ includes ts x
unfolding longest_first
includes-longest_first x [] = refl
includes-longest_first x (t ∷ ts) =
    ground (arith, includes-insert_term t x (longest_first ts), includes-longest_first x ts)
