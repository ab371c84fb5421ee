-- ===== src/Explain/Marks.antt =====
-- The marking of glossary terms in the page: `markTerms` of explain.js.
pub mod Steps
pub mod Text
pub mod Once
pub mod Order
pub mod Found
use ratelimit_gateway.Base.{
  ℕ, ◌+◌, String, Bool, true, false, not, ◌&&◌, ◌||◌, Option, none, some, List, [], ◌∷◌, ◌++◌,
  if◌then◌else◌, leb, str_eq, any, prepend, trim,
}
use ratelimit_gateway.Explain.Words.{match_index, text_length, take_text, drop_text}

-- What the walk reads of an element: its name, whether it is in the SVG name space, its classes,
-- and its `data-term`.
pub record Element : Type 0 where
  pub tag_name : String
  pub svg : Bool
  pub class_list : List String
  pub term : Option String

-- A text node with the elements around it, the innermost one first. The page is the list of its
-- text nodes, in the order of the document.
pub record TextNode : Type 0 where
  pub ancestors : List Element
  pub value : String

abbrev pub skipped_tags : List String
skipped_tags = "SCRIPT" ∷ "STYLE" ∷ "TEXTAREA" ∷ "INPUT" ∷ "SELECT" ∷ "OPTION" ∷ "BUTTON" ∷ []

abbrev pub own_classes : List String
own_classes = "xp-panel" ∷ "xp-pop" ∷ "xp-fab" ∷ "xp-mark" ∷ []

abbrev pub includes : List String → String → Bool
includes xs x = any (str_eq x) xs

abbrev pub skips : Element → Bool
skips el = includes skipped_tags el.tag_name || el.svg || any (includes el.class_list) own_classes

-- `acceptNode`.
unfoldable pub accept_node : TextNode → Bool
accept_node node = not (str_eq (trim node.value) "") && not (any skips node.ancestors)

-- The terms, longest first; terms of one length stay in order.
abbrev pub insert_term : String → List String → List String
insert_term t [] = t ∷ []
insert_term t (u ∷ us) =
    let later = insert_term t us in
    if leb (text_length u) (text_length t) then t ∷ u ∷ us else u ∷ later

unfoldable pub longest_first : List String → List String
longest_first [] = []
longest_first (t ∷ ts) = insert_term t (longest_first ts)

-- The first of the terms that is not done and occurs in the text, with the place.
abbrev pub pick_term : List String → List String → String → Option (String × ℕ)
pick_term [] done value = none
pick_term (t ∷ ts) done value =
    let later = pick_term ts done value in
    let here : Option (String × ℕ) = elim (match_index false t value) [
      | none ↦ later
      | some i ↦ some (t, i)
    ] in
    if includes done t then later else here

abbrev pub mark_element : String → Element
mark_element term = record {
  tag_name = "SPAN";
  svg = false;
  class_list = "xp-mark" ∷ [];
  term = some term;
}

-- The node is split around the match, which goes into an element of its own.
abbrev pub split_node : String → ℕ → TextNode → List TextNode
split_node term i node =
    record node { value = take_text i node.value }
    ∷ record {
      ancestors = mark_element term ∷ node.ancestors;
      value = take_text (text_length term) (drop_text i node.value);
    }
    ∷ record node { value = drop_text (text_length term) (drop_text i node.value) }
    ∷ []

-- What is picked in a node of the page; the nodes that are not accepted are no targets.
unfoldable pub pick_in : List String → List String → TextNode → Option (String × ℕ)
pick_in terms done node =
    let picked = pick_term terms done node.value in if accept_node node then picked else none

-- The loop over the nodes, with the terms that are done.
unfoldable pub mark_from : List String → List String → List TextNode → List TextNode
mark_from terms done [] = []
mark_from terms done (node ∷ nodes) = elim (pick_in terms done node) [
  | none ↦ node ∷ mark_from terms done nodes
  | some p ↦ split_node p.0 p.1 node ++ mark_from terms (p.0 ∷ done) nodes
]

abbrev pub mark_sorted : List String → List TextNode → List TextNode
mark_sorted [] page = page
mark_sorted (t ∷ ts) page = mark_from (t ∷ ts) [] page

-- The terms are the keys of the glossary.
unfoldable pub mark_terms : List String → List TextNode → List TextNode
mark_terms terms page = mark_sorted (longest_first terms) page

-- The text of a page.
abbrev pub page_text : List TextNode → String
page_text [] = ""
page_text (node ∷ nodes) = prepend node.value (page_text nodes)

-- The node stands in a mark of this term.
abbrev pub is_mark : String → TextNode → Bool
is_mark term node =
    any (λ el. elim el.term [ none ↦ false | some t ↦ str_eq term t ]) node.ancestors
