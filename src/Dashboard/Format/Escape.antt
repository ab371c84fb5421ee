-- ===== src/Dashboard/Format/Escape.antt =====
-- `escapeHtml` against the browser's reading of character references.
use Prim.Native.Char.{Char, code}
use text.Mathlib.TextEquality.{Char-path}
use ratelimit_gateway.Base.{
  ℕ, zero, suc, ◌≡◌, ◌≢◌, refl, ap, ◌∙◌, String, Bool, true, false, ◌&&◌, ◌==◌, if◌then◌else◌,
  arith,
}
use ratelimit_gateway.Dashboard.Format.{escape_char, escape_html}

abbrev has_prefix : String → String → Bool
has_prefix String.[] s = true
has_prefix (String.◌∷◌ p ps) String.[] = false
has_prefix (String.◌∷◌ p ps) (String.◌∷◌ c s) = code p == code c && has_prefix ps s

-- The character that a position stands for, and how many further characters the reference takes,
-- for the five references that the dashboard writes.
abbrev reference : Char → String → Char × ℕ
reference c s =
    if code c == b'&'
    then if has_prefix "amp;" s
      then ("&", 4)
      else if has_prefix "lt;" s
      then ("<", 3)
      else if has_prefix "gt;" s
      then (">", 3)
      else if has_prefix "quot;" s
      then ("\"", 5)
      else if has_prefix "#39;" s
      then ("'", 4)
      else (c, 0)
    else (c, 0)

-- Text content as the browser reads it; the number is what is left of a reference.
unfoldable pub decode_from : ℕ → String → String
decode_from n String.[] = ""
decode_from zero (String.◌∷◌ c s) = String.◌∷◌ (reference c s).0 (decode_from (reference c s).1 s)
decode_from (suc n) (String.◌∷◌ c s) = decode_from n s

-- No character of the text opens or closes a tag or a quoted attribute.
abbrev pub IsInert : String → Type 0
IsInert String.[] = Unit
IsInert (String.◌∷◌ c s) =
    (code c ≢ b'<') × (code c ≢ b'>') × (code c ≢ 34) × (code c ≢ 39) × IsInert s

decode_from-escape_char :
    (c : Char) (rest : String)
    → decode_from 0 (escape_char c rest) ≡ String.◌∷◌ c (decode_from 0 rest)
unfolding decode_from
decode_from-escape_char c rest =
    ground
      (arith, Char-path c "&", Char-path c "<", Char-path c ">", Char-path c "\"", Char-path c "'")

escape_char-IsInert : (c : Char) (rest : String) → IsInert rest → IsInert (escape_char c rest)
escape_char-IsInert c rest h = ground arith

decode_from-escape_html : (s : String) → decode_from 0 (escape_html s) ≡ s
unfolding escape_html decode_from
decode_from-escape_html String.[] = refl
decode_from-escape_html (String.◌∷◌ c s) =
    decode_from-escape_char c (escape_html s) ∙ ap (String.◌∷◌ c) (decode_from-escape_html s)

escape_html-IsInert : (s : String) → IsInert (escape_html s)
unfolding escape_html
escape_html-IsInert String.[] = tt
escape_html-IsInert (String.◌∷◌ c s) = escape_char-IsInert c (escape_html s) (escape_html-IsInert s)

-- Escaping loses nothing: the browser reads the text back. And an escaped text cannot leave the
-- element or the attribute that it is put into.
pub escape_html-attribute :
    (s : String) → (decode_from 0 (escape_html s) ≡ s) × IsInert (escape_html s)
escape_html-attribute s = (decode_from-escape_html s, escape_html-IsInert s)
