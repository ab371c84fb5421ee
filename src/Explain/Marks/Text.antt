-- ===== src/Explain/Marks/Text.antt =====
-- The text of the page under `markTerms` of explain.js.
use ratelimit_gateway.Base.{
  ℕ, zero, suc, ◌≡◌, refl, ap, sym, ◌∙◌, String, List, [], ◌∷◌, ◌++◌, prepend, Option-cases, inl,
  inr,
}
use ratelimit_gateway.Explain.Words.{take_text, drop_text, text_length}
use ratelimit_gateway.Explain.Marks.Steps.{mark_from-none, mark_from-some}
use ratelimit_gateway.Explain.Marks.{
  TextNode, pick_in, split_node, mark_from, mark_sorted, longest_first, mark_terms, page_text,
}

prepend-take_text : (n : ℕ) (s : String) → prepend (take_text n s) (drop_text n s) ≡ s
prepend-take_text zero s = refl
prepend-take_text (suc n) String.[] = refl
prepend-take_text (suc n) (String.◌∷◌ c s) = ap (String.◌∷◌ c) (prepend-take_text n s)

prepend_assoc : (s t u : String) → prepend (prepend s t) u ≡ prepend s (prepend t u)
prepend_assoc String.[] t u = refl
prepend_assoc (String.◌∷◌ c s) t u = ap (String.◌∷◌ c) (prepend_assoc s t u)

page_text-split_node :
    (term : String) (i : ℕ) (node : TextNode) (rest : List TextNode)
    → page_text (split_node term i node ++ rest) ≡ prepend node.value (page_text rest)
page_text-split_node term i node rest =
    let s = node.value in
    let tail_text = drop_text i s in
    let n = text_length term in
    ap (prepend (take_text i s)) (
      sym (prepend_assoc (take_text n tail_text) (drop_text n tail_text) (page_text rest))
      ∙ ap (λ x. prepend x (page_text rest)) (prepend-take_text n tail_text))
    ∙ sym (prepend_assoc (take_text i s) tail_text (page_text rest))
    ∙ ap (λ x. prepend x (page_text rest)) (prepend-take_text i s)

page_text-mark_from :
    (terms done : List String) (page : List TextNode)
    → page_text (mark_from terms done page) ≡ page_text page
unfolding mark_from
page_text-mark_from terms done [] = refl
page_text-mark_from terms done (node ∷ nodes) = elim (Option-cases (pick_in terms done node)) [
  | inl nothing ↦
      ap page_text (mark_from-none terms done node nodes nothing)
      ∙ ap (prepend node.value) (page_text-mark_from terms done nodes)
  | inr (p, picked) ↦
      ap page_text (mark_from-some terms done node nodes p picked)
      ∙ page_text-split_node p.0 p.1 node (mark_from terms (p.0 ∷ done) nodes)
      ∙ ap (prepend node.value) (page_text-mark_from terms (p.0 ∷ done) nodes)
]

page_text-mark_sorted :
    (terms : List String) (page : List TextNode)
    → page_text (mark_sorted terms page) ≡ page_text page
page_text-mark_sorted [] page = refl
page_text-mark_sorted (t ∷ ts) page = page_text-mark_from (t ∷ ts) [] page

-- Marking the terms of a glossary changes no character of the page's text, whatever the page and
-- the terms.
pub page_text-mark_terms :
    (terms : List String) (page : List TextNode)
    → page_text (mark_terms terms page) ≡ page_text page
unfolding mark_terms
page_text-mark_terms terms page = page_text-mark_sorted (longest_first terms) page
