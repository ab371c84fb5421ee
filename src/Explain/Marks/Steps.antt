-- ===== src/Explain/Marks/Steps.antt =====
-- The two steps of the marking loop of explain.js.
use ratelimit_gateway.Base.{ℕ, ◌≡◌, refl, String, false, none, some, List, [], ◌∷◌, ◌++◌, arith}
use ratelimit_gateway.Explain.Marks.{TextNode, includes, pick_term, pick_in, split_node, mark_from}

module _ (terms done : List String) (node : TextNode) (nodes : List TextNode) where
  -- A node in which nothing is picked stays as it is.
  pub mark_from-none :
      pick_in terms done node ≡ none
      → mark_from terms done (node ∷ nodes) ≡ node ∷ mark_from terms done nodes
  unfolding mark_from
  mark_from-none nothing = rw (nothing, mark_from) refl

  -- One in which a term is picked is split, and the term is done.
  pub mark_from-some :
      (p : String × ℕ)
      → pick_in terms done node ≡ some p
      → mark_from terms done (node ∷ nodes)
        ≡ split_node p.0 p.1 node ++ mark_from terms (p.0 ∷ done) nodes
  unfolding mark_from
  mark_from-some p picked = rw (picked, mark_from) refl

-- The term that is picked is not done.
pick_term-not_done :
    (terms done : List String) (value : String) (p : String × ℕ)
    → pick_term terms done value ≡ some p
    → includes done p.0 ≡ false
pick_term-not_done [] done value p picked = ground arith
pick_term-not_done (t ∷ ts) done value p picked = ground (arith, pick_term-not_done ts done value p)

pub pick_in-not_done :
    (terms done : List String) (node : TextNode) (p : String × ℕ)
    → pick_in terms done node ≡ some p
    → includes done p.0 ≡ false
unfolding pick_in
pick_in-not_done terms done node p picked =
    ground (arith, pick_term-not_done terms done node.value p)
