-- ===== src/Explain/Marks/Once.antt =====
-- How often `markTerms` of explain.js marks a term.
use text.Mathlib.TextEquality.{eq_iff}
use ratelimit_gateway.Base.{
  ℕ, ◌≤◌, ◌≡◌, refl, ap, ◌∙◌, String, true, false, some, List, [], ◌∷◌, if◌then◌else◌, str_eq, All,
  count, count-append, Option-cases, inl, inr, arith,
}
use ratelimit_gateway.Explain.Marks.Steps.{mark_from-none, mark_from-some, pick_in-not_done}
use ratelimit_gateway.Explain.Marks.{
  TextNode, includes, pick_in, split_node, mark_from, mark_sorted, longest_first, mark_terms,
  is_mark,
}

-- No text of the page stands in a mark of the term.
abbrev pub IsUnmarked : String → List TextNode → Type 0
IsUnmarked term page = All (λ node. is_mark term node ≡ false) page

count-split_node :
    (t term : String) (i : ℕ) (node : TextNode)
    → is_mark t node ≡ false
    → count (is_mark t) (split_node term i node) ≡ (if str_eq t term then 1 else 0)
count-split_node t term i node unmarked = ground arith

-- A picked term that is this one was not done before.
done-fresh :
    (t : String) (terms done : List String) (node : TextNode) (p : String × ℕ)
    → pick_in terms done node ≡ some p
    → str_eq t p.0 ≡ true
    → includes done t ≡ false
done-fresh t terms done node p picked same =
    ap (includes done) ((eq_iff t p.0).0 same) ∙ pick_in-not_done terms done node p picked

count-mark_from :
    (t : String) (terms done : List String) (page : List TextNode)
    → IsUnmarked t page
    → count (is_mark t) (mark_from terms done page) ≤ (if includes done t then 0 else 1)
unfolding mark_from
count-mark_from t terms done [] unmarked = ground arith
count-mark_from t terms done (node ∷ nodes) (here, unmarked) =
    elim (Option-cases (pick_in terms done node)) [
      | inl nothing ↦
          rw (mark_from-none terms done node nodes nothing, here)
            (omega (arith, count-mark_from t terms done nodes unmarked))
      | inr (p, picked) ↦
          let rest = mark_from terms (p.0 ∷ done) nodes in
          rw (mark_from-some terms done node nodes p picked) (
            rw
              (
                count-append (is_mark t) (split_node p.0 p.1 node) rest,
                count-split_node t p.0 p.1 node here,
              )
              (ground (
                arith,
                count-mark_from t terms (p.0 ∷ done) nodes unmarked,
                done-fresh t terms done node p picked,
              )))
    ]

count-IsUnmarked :
    (t : String) (page : List TextNode) → IsUnmarked t page → count (is_mark t) page ≡ 0
count-IsUnmarked t [] unmarked = refl
count-IsUnmarked t (node ∷ nodes) (here, unmarked) =
    rw here (omega (arith, count-IsUnmarked t nodes unmarked))

count-mark_sorted :
    (t : String) (terms : List String) (page : List TextNode)
    → IsUnmarked t page
    → count (is_mark t) (mark_sorted terms page) ≤ 1
count-mark_sorted t [] page unmarked = omega (arith, count-IsUnmarked t page unmarked)
count-mark_sorted t (u ∷ us) page unmarked = count-mark_from t (u ∷ us) [] page unmarked

-- On a page that has no marks of a term yet, the marking of any terms makes one mark of it at most.
pub count-mark_terms :
    (t : String) (terms : List String) (page : List TextNode)
    → IsUnmarked t page
    → count (is_mark t) (mark_terms terms page) ≤ 1
unfolding mark_terms
count-mark_terms t terms page unmarked = count-mark_sorted t (longest_first terms) page unmarked
