-- ===== src/Explain/Glossary/Filter.antt =====
-- What the filter of the glossary shows.
use Prim.Native.Char.{Char}
use text.Mathlib.TextEquality.{Char-path, eq_iff}
use ratelimit_gateway.Base.{
  ◌≡◌, ◌⊎◌, ◌↔◌, refl, ap, sym, ◌∙◌, String, Bool, true, false, List, [], ◌∷◌, ◌++◌, if◌then◌else◌,
  prepend, str_eq, Bool-cases, inl, inr, arith,
}
use ratelimit_gateway.Explain.Glossary.{Entry, starts_with, contains, is_hit, hits_of, explained}

-- The text has the other one in it.
abbrev pub IsPart : String → String → Type 0
IsPart p s = (before : String) × (after : String) × (s ≡ prepend before (prepend p after))

starts_with-prefix :
    (p s : String) → starts_with p s ≡ true → (after : String) × (s ≡ prepend p after)
starts_with-prefix p String.[] h = ("", rw ((eq_iff p "").0 h) refl)
starts_with-prefix String.[] (String.◌∷◌ c s) h = (String.◌∷◌ c s, refl)
starts_with-prefix (String.◌∷◌ d p) (String.◌∷◌ c s) h =
    let (after, e) = starts_with-prefix p s (ground arith) in
    (
      after,
      ap (String.◌∷◌ c) e ∙ ap (λ x. String.◌∷◌ x (prepend p after)) (Char-path c d (ground arith)),
    )

starts_with-prepend : (p after : String) → starts_with p (prepend p after) ≡ true
starts_with-prepend String.[] String.[] = refl
starts_with-prepend String.[] (String.◌∷◌ c s) = refl
starts_with-prepend (String.◌∷◌ c p) after = ground (arith, starts_with-prepend p after)

contains-IsPart : (p s : String) → contains p s ≡ true → IsPart p s
contains-IsPart p String.[] h = let (after, e) = starts_with-prefix p "" h in ("", after, e)
contains-IsPart p (String.◌∷◌ c s) h = elim (Bool-cases (starts_with p (String.◌∷◌ c s))) [
  | inl here ↦ let (after, e) = starts_with-prefix p (String.◌∷◌ c s) here in ("", after, e)
  | inr later ↦
      let (before, after, e) = contains-IsPart p s (ground arith) in
      (String.◌∷◌ c before, after, ap (String.◌∷◌ c) e)
]

contains-later :
    (p : String) (c : Char) (s : String) → contains p s ≡ true → contains p (String.◌∷◌ c s) ≡ true
contains-later p c s h = ground arith

contains_at : (p s : String) → starts_with p s ≡ true → contains p s ≡ true
contains_at p String.[] h = h
contains_at p (String.◌∷◌ c s) h = rw h refl

contains-prepend : (p before after : String) → contains p (prepend before (prepend p after)) ≡ true
contains-prepend p String.[] after = contains_at p (prepend p after) (starts_with-prepend p after)
contains-prepend p (String.◌∷◌ c s) after =
    contains-later p c (prepend s (prepend p after)) (contains-prepend p s after)

pub contains_iff : (p s : String) → (contains p s ≡ true) ↔ IsPart p s
contains_iff p s =
    (contains-IsPart p s, λ part. ap (contains p) part.2 ∙ contains-prepend p part.0 part.1)

-- The query is empty, or stands in the term or in its explanation, without regard to case.
abbrev pub IsMatch : (String → String) → String → String × Entry → Type 0
IsMatch lower q e = (q ≡ "") ⊎ (IsPart q (lower e.0) ⊎ IsPart q (lower (explained e)))

is_hit-IsMatch :
    (lower : String → String) (q : String) (e : String × Entry)
    → is_hit lower q e ≡ true
    → IsMatch lower q e
is_hit-IsMatch lower q e h = elim (Bool-cases (str_eq q "")) [
  | inl empty ↦ inl ((eq_iff q "").0 empty)
  | inr full ↦ elim (Bool-cases (contains q (lower e.0))) [
    | inl named ↦ inr (inl (contains-IsPart q (lower e.0) named))
    | inr other ↦ inr (inr (contains-IsPart q (lower (explained e)) (ground arith)))
  ]
]

IsMatch-is_hit :
    (lower : String → String) (q : String) (e : String × Entry)
    → IsMatch lower q e
    → is_hit lower q e ≡ true
IsMatch-is_hit lower q e (inl empty) = rw ((eq_iff q "").1 empty) refl
IsMatch-is_hit lower q e (inr (inl named)) =
    let h = (contains_iff q (lower e.0)).1 named in ground arith
IsMatch-is_hit lower q e (inr (inr told)) =
    let h = (contains_iff q (lower (explained e))).1 told in ground arith

kept_append {ℓ} :
    {A : Type ℓ} (kept : Bool) (x : A) (us vs ws : List A)
    → us ≡ vs ++ ws
    → (if kept then x ∷ us else us) ≡ (if kept then x ∷ vs else vs) ++ ws
kept_append true x us vs ws e = ap (◌∷◌ x) e
kept_append false x us vs ws e = e

hits_of-append :
    (lower : String → String) (q : String) (xs ys : List (String × Entry))
    → hits_of lower q (xs ++ ys) ≡ hits_of lower q xs ++ hits_of lower q ys
hits_of-append lower q [] ys = refl
hits_of-append lower q (x ∷ xs) ys =
    kept_append (is_hit lower q x) x _ _ _ (hits_of-append lower q xs ys)

-- Of an entry anywhere in the glossary the list for a query holds the entry in its place, if the
-- query is empty or is part of the term or of its explanation; else the list is that without the
-- entry.
pub hits_of-entry :
    (lower : String → String) (q : String) (before after : List (String × Entry))
    (e : String × Entry)
    → (IsMatch lower q e
        → hits_of lower q (before ++ e ∷ after)
          ≡ hits_of lower q before ++ e ∷ hits_of lower q after)
      × (¬ (IsMatch lower q e)
          → hits_of lower q (before ++ e ∷ after) ≡ hits_of lower q (before ++ after))
hits_of-entry lower q before after e =
    let shown : Bool → List (String × Entry) = λ b.
      hits_of lower q before ++ (if b then e ∷ hits_of lower q after else hits_of lower q after) in
    let split = hits_of-append lower q before (e ∷ after) in
    (
      λ matched. split ∙ ap shown (IsMatch-is_hit lower q e matched),
      λ unmatched. elim (Bool-cases (is_hit lower q e)) [
        | inl hit ↦ absurd (unmatched (is_hit-IsMatch lower q e hit))
        | inr miss ↦ split ∙ ap shown miss ∙ sym (hits_of-append lower q before after)
      ],
    )
