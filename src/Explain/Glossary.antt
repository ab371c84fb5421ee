-- ===== src/Explain/Glossary.antt =====
-- The texts that explain.js shows, their escaping, and the three views of the panel.
pub mod Filter
pub mod Attribute
use Prim.Native.Char.{Char, code}
use Prim.Native.String
use ratelimit_gateway.Base.{
  ℕ, ◌+◌, String, Bool, true, false, ◌&&◌, ◌||◌, Option, none, some, List, [], ◌∷◌, map,
  if◌then◌else◌, ◌==◌, str_eq, length, prepend, template, trim,
}

-- A glossary entry; no `why` is the empty text, since the script tests it for truth.
pub record Entry : Type 0 where
  pub short : String
  pub why : String

pub record ExplainStep : Type 0 where
  pub title : String
  pub text : String

-- `window.EXPLAIN`, with the empty text or list for what a project leaves out.
pub record Explanation : Type 0 where
  pub what : String
  pub why : String
  pub uses : List String
  pub honest : String
  pub steps : List ExplainStep
  pub glossary : List (String × Entry)

-- `esc`: the quotation mark `'` stays.
abbrev pub esc_char : Char → String → String
esc_char c rest =
    if code c == b'&'
    then prepend "&amp;" rest
    else if code c == b'<'
    then prepend "&lt;" rest
    else if code c == b'>'
    then prepend "&gt;" rest
    else if code c == 34
    then prepend "&quot;" rest
    else String.◌∷◌ c rest

unfoldable pub esc : String → String
esc String.[] = ""
esc (String.◌∷◌ c s) = esc_char c (esc s)

-- `s.startsWith(p)` and `s.includes(p)`.
abbrev pub starts_with : String → String → Bool
starts_with p String.[] = str_eq p ""
starts_with String.[] (String.◌∷◌ c s) = true
starts_with (String.◌∷◌ p ps) (String.◌∷◌ c s) = code p == code c && starts_with ps s

abbrev pub contains : String → String → Bool
contains p String.[] = starts_with p ""
contains p (String.◌∷◌ c s) = starts_with p (String.◌∷◌ c s) || contains p s

-- A part of the markup that is left out when its text is empty.
abbrev pub unless_empty : String → Option String
unless_empty s = if str_eq s "" then none else some (esc s)

pub record TermView : Type 0 where
  pub term : String
  pub short : String
  pub why : Option String

-- What `body.innerHTML` holds: the interpolated texts, escaped.
pub data Body : Type 0 where
  blank : Body
  what_body : String → Option String → List String → Option String → Body
  how_body : List (ℕ × String × String) → Body
  words_body : ℕ → String → List TermView → Option String → Body

abbrev pub render_what : Explanation → Body
render_what data_of =
    what_body (esc data_of.what) (unless_empty data_of.why) (map esc data_of.uses)
      (unless_empty data_of.honest)

-- The steps, numbered from one.
abbrev pub number_steps : ℕ → List ExplainStep → List (ℕ × String × String)
number_steps n [] = []
number_steps n (s ∷ ss) = (n, esc s.title, esc s.text) ∷ number_steps (n + 1) ss

abbrev pub render_how : Explanation → Body
render_how data_of = how_body (number_steps 1 data_of.steps)

abbrev pub term_view : String × Entry → TermView
term_view e = record { term = esc e.0; short = esc e.1.short; why = unless_empty e.1.why }

abbrev pub explained : String × Entry → String
explained e = template (e.1.short ∷ " " ∷ e.1.why ∷ [])

-- The letters' case is the engine's `toLowerCase`.
module _ (lower : String → String) where
  abbrev pub is_hit : String → String × Entry → Bool
  is_hit q e = str_eq q "" || contains q (lower e.0) || contains q (lower (explained e))

  abbrev pub hits_of : String → List (String × Entry) → List (String × Entry)
  hits_of q [] = []
  hits_of q (e ∷ es) = let rest = hits_of q es in if is_hit q e then e ∷ rest else rest

  abbrev pub query_of : String → String
  query_of filter = lower (trim filter)

  abbrev pub nothing_matches : String → List (String × Entry) → Option String
  nothing_matches filter [] = some (esc filter)
  nothing_matches filter (e ∷ es) = none

  unfoldable pub render_words : String → Explanation → Body
  render_words filter data_of =
      let hits = hits_of (query_of filter) data_of.glossary in
      words_body (length data_of.glossary) (esc filter) (map term_view hits)
        (nothing_matches filter hits)
