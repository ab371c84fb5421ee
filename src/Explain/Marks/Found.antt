-- ===== src/Explain/Marks/Found.antt =====
-- Which terms `markTerms` of explain.js finds.
use text.Mathlib.TextEquality.{eq_iff}
use ratelimit_gateway.Base.{
  ℕ, ◌≤◌, ◌<◌, ◌≡◌, refl, ap, sym, ◌∙◌, String, true, false, none, some, List, [], ◌∷◌, ◌++◌,
  str_eq, All, any, Bool-cases, Option-cases, inl, inr, ◌⊎◌, Bool, ◌||◌, arith,
}
use ratelimit_gateway.Explain.Words.{match_index, text_length}
use ratelimit_gateway.Explain.Marks.Steps.{mark_from-none, mark_from-some}
use ratelimit_gateway.Explain.Marks.Order.{
  IsDescending, All-longest_first, longest_first-IsDescending, includes-longest_first,
}
use ratelimit_gateway.Explain.Marks.{
  TextNode, includes, accept_node, pick_term, pick_in, split_node, mark_from, mark_sorted,
  longest_first, mark_terms, is_mark,
}

-- Beside this term, the text holds only terms that are shorter.
abbrev pub IsLongest : String → String → String → Type 0
IsLongest t value u =
    (str_eq t u ≡ true) ⊎ ((match_index false u value ≡ none) ⊎ (text_length u < text_length t))

le_of_includes :
    (t : String) (m : ℕ) (ts : List String)
    → All (λ u. text_length u ≤ m) ts
    → includes ts t ≡ true
    → text_length t ≤ m
le_of_includes t m [] hs found = ground arith
le_of_includes t m (u ∷ us) (h, hs) found = elim (Bool-cases (str_eq t u)) [
  | inl same ↦ rw ((eq_iff t u).0 same) h
  | inr other ↦ le_of_includes t m us hs (ground arith)
]

module _ (t : String) (done : List String) (value : String) (i : ℕ)
    (fresh : includes done t ≡ false) (occurs : match_index false t value ≡ some i) where
  pick_term_longest :
      (ts : List String)
      → IsDescending ts
      → includes ts t ≡ true
      → All (IsLongest t value) ts
      → pick_term ts done value ≡ some (t, i)
  pick_term_longest [] descending found longest = ground arith
  pick_term_longest (u ∷ us) (above, descending) found (here, longest) =
      elim (Bool-cases (str_eq t u)) [
        | inl same ↦
            let e : u ≡ t = sym ((eq_iff t u).0 same) in
            rw (e, fresh, occurs) (ap (λ x. some (x, i)) e)
        | inr other ↦ elim here [
          | inl same ↦ ground arith
          | inr (inl absent) ↦
              ground (arith, pick_term_longest us descending (ground arith) longest)
          | inr (inr shorter) ↦
              let bound : text_length t ≤ text_length u =
                le_of_includes t (text_length u) us above (ground arith) in
              absurd (omega arith)
        ]
      ]

pick_in_longest :
    (t : String) (done ts : List String) (node : TextNode) (i : ℕ)
    → includes done t ≡ false
    → match_index false t node.value ≡ some i
    → accept_node node ≡ true
    → IsDescending ts
    → includes ts t ≡ true
    → All (IsLongest t node.value) ts
    → pick_in ts done node ≡ some (t, i)
unfolding pick_in
pick_in_longest t done ts node i fresh occurs accepted descending found longest =
    rw accepted (pick_term_longest t done node.value i fresh occurs ts descending found longest)

-- The marks of what is split off and of the rest.
any-append :
    (p : TextNode → Bool) (xs ys : List TextNode) → any p (xs ++ ys) ≡ (any p xs || any p ys)
any-append p [] ys = refl
any-append p (x ∷ xs) ys = ground (arith, any-append p xs ys)

any-split_node :
    (t : String) (p : String × ℕ) (node : TextNode) (rest : List TextNode)
    → (str_eq t p.0 ≡ true) ⊎ (any (is_mark t) rest ≡ true)
    → any (is_mark t) (split_node p.0 p.1 node ++ rest) ≡ true
any-split_node t p node rest h = ground arith

module _ (t : String) (terms : List String) (node : TextNode) (i : ℕ)
    (accepted : accept_node node ≡ true) (occurs : match_index false t node.value ≡ some i)
    (descending : IsDescending terms) (listed : includes terms t ≡ true)
    (longest : All (IsLongest t node.value) terms) where
  -- The node stands in the page after the nodes of the first list; the term is done before the
  -- walk gets there, or picked in it.
  any-mark_from :
      (done : List String) (before after : List TextNode)
      → includes done t ≡ false
      → any (is_mark t) (mark_from terms done (before ++ node ∷ after)) ≡ true
  any-mark_from done [] after fresh =
      ap (any (is_mark t)) (
        mark_from-some terms done node after (t, i)
          (pick_in_longest t done terms node i fresh occurs accepted descending listed longest))
      ∙ any-split_node t (t, i) node (mark_from terms (t ∷ done) after) (inl ((eq_iff t t).1 refl))
  any-mark_from done (b ∷ bs) after fresh = elim (Option-cases (pick_in terms done b)) [
    | inl nothing ↦
        ap (any (is_mark t)) (mark_from-none terms done b (bs ++ node ∷ after) nothing)
        ∙ ground (arith, any-mark_from done bs after fresh)
    | inr (p, picked) ↦
        ap (any (is_mark t)) (mark_from-some terms done b (bs ++ node ∷ after) p picked)
        ∙ any-split_node t p b (mark_from terms (p.0 ∷ done) (bs ++ node ∷ after))
            (elim (Bool-cases (str_eq t p.0)) [
              | inl same ↦ inl same
              | inr other ↦ inr (any-mark_from (p.0 ∷ done) bs after (ground arith))
            ])
  ]

any-mark_sorted :
    (t : String) (terms : List String) (page : List TextNode)
    → includes terms t ≡ true
    → any (is_mark t) (mark_from terms [] page) ≡ true
    → any (is_mark t) (mark_sorted terms page) ≡ true
any-mark_sorted t [] page listed h = ground arith
any-mark_sorted t (u ∷ us) page listed h = h

-- A term of the glossary is marked somewhere, if it occurs in an accepted text node and all other
-- terms that occur there are shorter.
pub any-mark_terms :
    (t : String) (terms : List String) (before after : List TextNode) (node : TextNode) (i : ℕ)
    → accept_node node ≡ true
    → match_index false t node.value ≡ some i
    → includes terms t ≡ true
    → All (IsLongest t node.value) terms
    → any (is_mark t) (mark_terms terms (before ++ node ∷ after)) ≡ true
unfolding mark_terms
any-mark_terms t terms before after node i accepted occurs listed longest =
    let sorted_listed = includes-longest_first t terms ∙ listed in
    any-mark_sorted t (longest_first terms) (before ++ node ∷ after) sorted_listed (
      any-mark_from t (longest_first terms) node i accepted occurs
        (longest_first-IsDescending terms) sorted_listed
        (All-longest_first (IsLongest t node.value) terms longest) [] before after refl)
