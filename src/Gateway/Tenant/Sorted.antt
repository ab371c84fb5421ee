-- ===== src/Gateway/Tenant/Sorted.antt =====
-- The order of the tiers in `Tiers` of internal/tenant/tenant.go.
use Prim.Native.Char.{code}
use Prim.Native.Nat.{Ordering, compare}
use Prim.Native.Nat.compare as Compare
use Prim.Native.String
use Prim.Native.String.compare as CompareText
use ratelimit_gateway.Base.{
  ℕ, zero, suc, ◌+◌, ◌<◌, ◌≡◌, ◌⊎◌, refl, ap, sym, ◌∙◌, String, Bool, true, false, ◌&&◌, ◌||◌, List,
  [], ◌∷◌, map, if◌then◌else◌, ltb, ◌==◌, count, All, All-imp, Bool-cases, inl, inr, arith,
}
use ratelimit_gateway.Gateway.Tenant.{Tier, before, insert_tier, sort_tiers}

-- The order of names by the numbers of their characters, as in a dictionary: a name comes before
-- another at the first character that is less, or where it ends first.
abbrev pub precedes : String → String → Bool
precedes String.[] String.[] = false
precedes String.[] (String.◌∷◌ d t) = true
precedes (String.◌∷◌ c s) String.[] = false
precedes (String.◌∷◌ c s) (String.◌∷◌ d t) =
    ltb (code c) (code d) || (code c == code d && precedes s t)

compare_cases :
    (m n : ℕ)
    → ((m < n) × (compare m n ≡ Ordering.lt))
      ⊎ ((m ≡ n) × (compare m n ≡ Ordering.eq))
      ⊎ ((n < m) × (compare m n ≡ Ordering.gt))
compare_cases zero zero = inr (inl (refl, Compare.zero-zero))
compare_cases zero (suc n) = inl (omega arith, Compare.zero-suc n)
compare_cases (suc m) zero = inr (inr (omega arith, Compare.suc-zero m))
compare_cases (suc m) (suc n) = elim (compare_cases m n) [
  | inl less ↦ inl (omega (arith, less.0), Compare.suc-suc m n ∙ less.1)
  | inr (inl same) ↦ inr (inl (ap suc same.0, Compare.suc-suc m n ∙ same.1))
  | inr (inr more) ↦ inr (inr (omega (arith, more.0), Compare.suc-suc m n ∙ more.1))
]

abbrev is_less : Ordering → Bool
is_less o = elim o [ Ordering.lt ↦ true | _ ↦ false ]

before-precedes : (a b : String) → before a b ≡ precedes a b
before-precedes String.[] String.[] = ap is_less CompareText.nil-nil
before-precedes String.[] (String.◌∷◌ d t) = ap is_less (CompareText.nil-cons d t)
before-precedes (String.◌∷◌ c s) String.[] = ap is_less (CompareText.cons-nil c s)
before-precedes (String.◌∷◌ c s) (String.◌∷◌ d t) =
    let first : (o : Ordering)
        → compare (code c) (code d) ≡ o
        → before (String.◌∷◌ c s) (String.◌∷◌ d t) ≡ is_less (String.then o (String.compare s t)) =
      λ o e.
        ap is_less (CompareText.cons-cons c d s t)
        ∙ ap (λ x. is_less (String.then x (String.compare s t))) e in
    elim (compare_cases (code c) (code d)) [
      | inl less ↦
          let now : ltb (code c) (code d) ≡ true = ground arith in first _ less.1 ∙ rw now refl
      | inr (inl same) ↦
          let now : ltb (code c) (code d) ≡ false = ground arith in
          let equal : (code c == code d) ≡ true = ground arith in
          first _ same.1 ∙ before-precedes s t ∙ rw (now, equal) refl
      | inr (inr more) ↦
          let now : ltb (code c) (code d) ≡ false = ground arith in
          let other : (code c == code d) ≡ false = ground arith in
          first _ more.1 ∙ rw (now, other) refl
    ]

precedes-asymmetric : (a b : String) → precedes a b ≡ true → precedes b a ≡ false
precedes-asymmetric String.[] String.[] h = refl
precedes-asymmetric String.[] (String.◌∷◌ d t) h = refl
precedes-asymmetric (String.◌∷◌ c s) String.[] h = ground arith
precedes-asymmetric (String.◌∷◌ c s) (String.◌∷◌ d t) h =
    let later = precedes-asymmetric s t in ground arith

-- What is not before a name is not before one that this is not before.
precedes-transitive :
    (a b c : String) → precedes b a ≡ false → precedes c b ≡ false → precedes c a ≡ false
precedes-transitive String.[] b String.[] first second = refl
precedes-transitive String.[] b (String.◌∷◌ e u) first second = refl
precedes-transitive (String.◌∷◌ c s) String.[] u first second = ground arith
precedes-transitive (String.◌∷◌ c s) (String.◌∷◌ d t) String.[] first second = ground arith
precedes-transitive (String.◌∷◌ c s) (String.◌∷◌ d t) (String.◌∷◌ e u) first second =
    let later = precedes-transitive s t u in ground arith

-- No tier has a name that comes before the one of an earlier tier.
abbrev pub IsInOrder : List Tier → Type 0
IsInOrder [] = Unit
IsInOrder (t ∷ ts) = All (λ u. precedes u.name t.name ≡ false) ts × IsInOrder ts

count-insert_tier :
    (p : Tier → Bool) (t : Tier) (ts : List Tier)
    → count p (insert_tier t ts) ≡ (if p t then 1 else 0) + count p ts
count-insert_tier p t [] = refl
count-insert_tier p t (u ∷ us) = elim (Bool-cases (before u.name t.name)) [
  | inl less ↦ rw less (omega (arith, count-insert_tier p t us))
  | inr done ↦ rw done refl
]

insert_tier-All :
    (P : Tier → Type 0) (t : Tier) (ts : List Tier) → P t → All P ts → All P (insert_tier t ts)
insert_tier-All P t [] h all = (h, tt)
insert_tier-All P t (u ∷ us) h (here, all) = elim (Bool-cases (before u.name t.name)) [
  | inl less ↦ rw less (here, insert_tier-All P t us h all)
  | inr done ↦ rw done (h, (here, all))
]

insert_tier-IsInOrder : (t : Tier) (ts : List Tier) → IsInOrder ts → IsInOrder (insert_tier t ts)
insert_tier-IsInOrder t [] h = (tt, tt)
insert_tier-IsInOrder t (u ∷ us) (least, h) = elim (Bool-cases (before u.name t.name)) [
  | inl less ↦
      let first = sym (before-precedes u.name t.name) ∙ less in
      rw less (
        insert_tier-All (λ v. precedes v.name u.name ≡ false) t us
            (precedes-asymmetric u.name t.name first) least,
        insert_tier-IsInOrder t us h,
      )
  | inr done ↦
      let first = sym (before-precedes u.name t.name) ∙ done in
      rw done (
        (
          first,
          All-imp (λ v. precedes v.name u.name ≡ false) (λ v. precedes v.name t.name ≡ false) us
              (λ v. precedes-transitive t.name u.name v.name first) least,
        ),
        (least, h),
      )
]

pub sort_tiers-IsInOrder : (tiers : List (String × Tier)) → IsInOrder (sort_tiers tiers)
sort_tiers-IsInOrder [] = tt
sort_tiers-IsInOrder (e ∷ es) = insert_tier-IsInOrder e.1 (sort_tiers es) (sort_tiers-IsInOrder es)

-- The same tiers, each as often as before.
pub count-sort_tiers :
    (p : Tier → Bool) (tiers : List (String × Tier))
    → count p (sort_tiers tiers) ≡ count p (map (λ e. e.1) tiers)
count-sort_tiers p [] = refl
count-sort_tiers p (e ∷ es) =
    omega (arith, count-insert_tier p e.1 (sort_tiers es), count-sort_tiers p es)
