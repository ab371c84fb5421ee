-- ===== src/Explain/Words.antt =====
-- Words of the page: the regular expression that `markTerms` of explain.js builds from a term,
-- `\bterm\b` without regard to case. The terms are ASCII, and then the letters that the engine
-- takes for equal are the ASCII ones.
use Prim.Native.Char.{Char, code}
use mathlib.Core.Option
use ratelimit_gateway.Base.{
  ℕ, zero, suc, ◌+◌, String, Bool, true, false, not, ◌&&◌, ◌||◌, Option, none, some, if◌then◌else◌,
  leb, ◌==◌,
}

-- The code of a character, that of the small letter for a capital one.
abbrev pub fold_case : Char → ℕ
fold_case c = if leb b'A' (code c) && leb (code c) b'Z' then code c + 32 else code c

abbrev pub is_word : Char → Bool
is_word c =
    (leb b'a' (fold_case c) && leb (fold_case c) b'z')
    || (leb b'0' (code c) && leb (code c) b'9')
    || code c == b'_'

-- `\b`: of the characters before and after, one belongs to a word.
abbrev pub is_boundary : Bool → Bool → Bool
is_boundary true after = not after
is_boundary false after = after

abbrev pub starts_word : String → Bool
starts_word String.[] = false
starts_word (String.◌∷◌ c s) = is_word c

-- The text starts with the term, which ends at a boundary; the first argument is whether a
-- character of a word stands before.
abbrev pub matches_here : Bool → String → String → Bool
matches_here before String.[] s = is_boundary before (starts_word s)
matches_here before (String.◌∷◌ t ts) String.[] = false
matches_here before (String.◌∷◌ t ts) (String.◌∷◌ c s) =
    fold_case t == fold_case c && matches_here (is_word c) ts s

abbrev pub matches_at : Bool → String → String → Bool
matches_at before term s = is_boundary before (starts_word s) && matches_here before term s

-- The index of the first match: `re.exec(text)`.
abbrev pub match_index : Bool → String → String → Option ℕ
match_index before term String.[] = if matches_at before term "" then some 0 else none
match_index before term (String.◌∷◌ c s) =
    let later = Option.map suc (match_index (is_word c) term s) in
    if matches_at before term (String.◌∷◌ c s) then some 0 else later

abbrev pub text_length : String → ℕ
text_length String.[] = 0
text_length (String.◌∷◌ c s) = suc (text_length s)

abbrev pub take_text : ℕ → String → String
take_text zero s = ""
take_text (suc n) String.[] = ""
take_text (suc n) (String.◌∷◌ c s) = String.◌∷◌ c (take_text n s)

-- `text.slice(n)`.
abbrev pub drop_text : ℕ → String → String
drop_text zero s = s
drop_text (suc n) String.[] = ""
drop_text (suc n) (String.◌∷◌ c s) = drop_text n s
