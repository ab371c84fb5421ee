-- ===== src/Examples/Explain.antt =====
-- Runs of the explainer, and its theorems at concrete pages and glossaries.
use ratelimit_gateway.Base.{
  ◌≤◌, ◌≡◌, refl, String, true, false, none, List, [], ◌∷◌, map, trim, trim_end, trim_start, any,
  count, inl, inr, arith,
}
use ratelimit_gateway.Explain.Marks.{
  Element, TextNode, mark_terms, is_mark, page_text, accept_node, mark_from, longest_first, pick_in,
}
use ratelimit_gateway.Explain.Marks.Once.{count-mark_terms}
use ratelimit_gateway.Explain.Marks.Found.{any-mark_terms}
use ratelimit_gateway.Explain.Marks.Text.{page_text-mark_terms}
use ratelimit_gateway.Explain.Glossary.{esc, Entry, hits_of}
use ratelimit_gateway.Dashboard.Format.Escape.{decode_from}
use ratelimit_gateway.Explain.Glossary.Attribute.{IsEnclosed, esc-attribute}
use ratelimit_gateway.Explain.Glossary.Filter.{hits_of-entry}
use ratelimit_gateway.Explain.Texts.{explanation}
use ratelimit_gateway.Explain.Panel.{
  how, click_tab, press_escape, click_scrim, type_filter, pause_over, initial_page, boot, run,
}
use ratelimit_gateway.Explain.Panel.Views.{IsConsistent, run-boot-IsConsistent}
use ratelimit_gateway.Explain.Panel.Visits.{boot-first}

abbrev paragraph : Element
paragraph = record { tag_name = "P"; svg = false; class_list = []; term = none }

abbrev button : Element
button = record { tag_name = "BUTTON"; svg = false; class_list = "go" ∷ []; term = none }

abbrev terms : List String
terms = "tier" ∷ "burst" ∷ "token bucket" ∷ []

abbrev sentence : TextNode
sentence = record { ancestors = paragraph ∷ []; value = "A Token bucket per tier." }

abbrev label : TextNode
label = record { ancestors = button ∷ []; value = "Send burst" }

abbrev page : List TextNode
page = label ∷ sentence ∷ []

-- The longest term is marked; the button is left alone.
marked_page :
    map (λ n. n.value) (mark_terms terms page)
    ≡ "Send burst" ∷ "A " ∷ "Token bucket" ∷ " per tier." ∷ []
unfolding mark_terms mark_from longest_first pick_in accept_node trim trim_end trim_start
marked_page = refl

page_text-mark_terms_example :
    page_text (mark_terms terms page) ≡ "Send burstA Token bucket per tier."
page_text-mark_terms_example = page_text-mark_terms terms page

count-mark_terms_run : count (is_mark "tier") (mark_terms terms page) ≤ 1
count-mark_terms_run = count-mark_terms "tier" terms page (refl, (refl, tt))

any-mark_terms_example : any (is_mark "token bucket") (mark_terms terms page) ≡ true
unfolding accept_node trim trim_end trim_start
any-mark_terms_example =
    any-mark_terms "token bucket" terms (label ∷ []) [] sentence 2 refl refl refl
      (inr (inr (omega arith)), (inr (inl refl), (inl refl, tt)))

abbrev tier_entry : String × Entry
tier_entry = ("tier", record { short = "A named plan."; why = "" })

abbrev burst_entry : String × Entry
burst_entry = ("burst", record { short = "A sudden clump."; why = "Traffic is bursty." })

-- A stand-in for the engine's function on texts without capital letters.
abbrev same : String → String
same s = s

hits_of-entry_run : (hits_of same "plan" (burst_entry ∷ tier_entry ∷ []) ≡ tier_entry ∷ [])
hits_of-entry_run =
    (hits_of-entry same "plan" (burst_entry ∷ []) [] tier_entry).0
      (inr (inr ("A named ", ". ", refl)))

run-boot-IsConsistent_example : IsConsistent same explanation (
    run same explanation
      (type_filter "bu" ∷ press_escape ∷ [])
      (boot same explanation "#explain=words" (initial_page same explanation true none)).0)
run-boot-IsConsistent_example =
    run-boot-IsConsistent same explanation "#explain=words" true none
      (type_filter "bu" ∷ press_escape ∷ [])

boot-first_run :
    let (first, started) = boot same explanation "" (initial_page same explanation false none) in
    let left = run same explanation (pause_over ∷ click_tab how ∷ click_scrim ∷ []) first in
    (started ≡ true)
    × ((boot same explanation "" (initial_page same explanation false left.seen)).1 ≡ false)
boot-first_run = boot-first same explanation "" (click_tab how ∷ click_scrim ∷ []) refl

esc-attribute_run :
    let s : String = "say \"<b>\" & go" in (decode_from 0 (esc s) ≡ s) × IsEnclosed (esc s)
esc-attribute_run = esc-attribute "say \"<b>\" & go"
