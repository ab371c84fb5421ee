-- ===== src/Console/Log/Bounded.antt =====
-- The loops that bound the dots and the log.
use ratelimit_gateway.Base.{
  ℕ, zero, suc, ◌-◌, ◌≤◌, ◌<◌, ◌≡◌, refl, sym, ap, ◌∙◌, inl, inr, List, [], ◌∷◌, map, ltb,
  Bool-cases, length, take, last_n, take_of_length-le, arith, tests, ltb→lt,
}
use mathlib.Core.List.{drop_last}
use ratelimit_gateway.Console.Log.{
  Dot, Row, Node, white_space, placeholder, row, children, remove_placeholder, trim_log, trim_dots,
  prepend_row, max_dots, max_log_rows,
}

-- The dots that the loop keeps are the newest 200.
pub trim_dots-last_n : (ds : List Dot) → trim_dots ds ≡ last_n max_dots ds
unfolding trim_dots
trim_dots-last_n [] = refl
trim_dots-last_n (d ∷ ds) = elim (Bool-cases (ltb max_dots (length (d ∷ ds)))) [
  | inl over ↦
      let e : suc (length ds) - max_dots ≡ suc (length ds - max_dots) = omega tests in
      rw (over, e) (trim_dots-last_n ds)
  | inr within ↦ let e : suc (length ds) - max_dots ≡ 0 = omega tests in rw (within, e) refl
]

length-drop_last : (n : Node) (ns : List Node) → length (drop_last (n ∷ ns)) ≡ length ns
length-drop_last n [] = refl
length-drop_last n (m ∷ ns) = ap suc (length-drop_last m ns)

take-children-drop_last :
    (n : ℕ) (ns : List Node)
    → n < length (children ns)
    → take n (children (drop_last ns)) ≡ take n (children ns)
take-children-drop_last zero ns h = refl
take-children-drop_last (suc n) [] h = refl
take-children-drop_last (suc n) (white_space ∷ []) h = refl
take-children-drop_last (suc n) (placeholder ∷ []) h = absurd (omega arith)
take-children-drop_last (suc n) (row r ∷ []) h = absurd (omega arith)
take-children-drop_last (suc n) (white_space ∷ m ∷ ns) h =
    take-children-drop_last (suc n) (m ∷ ns) h
take-children-drop_last (suc n) (placeholder ∷ m ∷ ns) h =
    ap (◌∷◌ placeholder) (take-children-drop_last n (m ∷ ns) (omega arith))
take-children-drop_last (suc n) (row r ∷ m ∷ ns) h =
    ap (◌∷◌ (row r)) (take-children-drop_last n (m ∷ ns) (omega arith))

-- With a round for each node the loop leaves the first 60 children.
children-trim_log :
    (fuel : ℕ) (ns : List Node)
    → length ns ≤ fuel
    → children (trim_log fuel ns) ≡ take max_log_rows (children ns)
unfolding trim_log
children-trim_log zero [] h = refl
children-trim_log zero (n ∷ ns) h = absurd (omega arith)
children-trim_log (suc fuel) [] h = refl
children-trim_log (suc fuel) (n ∷ ns) h =
    elim (Bool-cases (ltb max_log_rows (length (children (n ∷ ns))))) [
      | inl over ↦ rw over (
          children-trim_log fuel (drop_last (n ∷ ns)) (omega (arith, length-drop_last n ns))
          ∙ take-children-drop_last max_log_rows (n ∷ ns) (ltb→lt _ _ over))
      | inr within ↦
          rw within (sym (take_of_length-le max_log_rows (children (n ∷ ns)) (omega tests)))
    ]

children-remove_placeholder :
    (ns : List Node) → children (remove_placeholder ns) ≡ remove_placeholder (children ns)
unfolding remove_placeholder
children-remove_placeholder [] = refl
children-remove_placeholder (white_space ∷ ns) = children-remove_placeholder ns
children-remove_placeholder (placeholder ∷ ns) = refl
children-remove_placeholder (row r ∷ ns) = ap (◌∷◌ (row r)) (children-remove_placeholder ns)

pub remove_placeholder-rows : (rs : List Row) → remove_placeholder (map row rs) ≡ map row rs
unfolding remove_placeholder
remove_placeholder-rows [] = refl
remove_placeholder-rows (r ∷ rs) = ap (◌∷◌ (row r)) (remove_placeholder-rows rs)

-- A row goes in front of the others, and at most 60 stay.
pub children-prepend_row :
    (r : Row) (ns : List Node)
    → children (prepend_row r ns) ≡ take max_log_rows (row r ∷ remove_placeholder (children ns))
unfolding prepend_row
children-prepend_row r ns =
    let grown = row r ∷ remove_placeholder ns in
    children-trim_log (length grown) grown (omega arith)
    ∙ ap (λ cs. take max_log_rows (row r ∷ cs)) (children-remove_placeholder ns)
