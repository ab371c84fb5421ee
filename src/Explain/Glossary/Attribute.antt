-- ===== src/Explain/Glossary/Attribute.antt =====
-- `esc` of explain.js against the browser's reading of what it writes.
use Prim.Native.Char.{Char, code}
use text.Mathlib.TextEquality.{Char-path}
use ratelimit_gateway.Base.{◌≡◌, ◌≢◌, refl, ap, ◌∙◌, String, arith}
use ratelimit_gateway.Dashboard.Format.Escape.{decode_from}
use ratelimit_gateway.Explain.Glossary.{esc_char, esc}

-- No character of the text opens or closes a tag or ends an attribute in double quotes.
abbrev pub IsEnclosed : String → Type 0
IsEnclosed String.[] = Unit
IsEnclosed (String.◌∷◌ c s) = (code c ≢ b'<') × (code c ≢ b'>') × (code c ≢ 34) × IsEnclosed s

decode_from-esc_char :
    (c : Char) (rest : String) → decode_from 0 (esc_char c rest) ≡ String.◌∷◌ c (decode_from 0 rest)
unfolding decode_from
decode_from-esc_char c rest =
    ground (arith, Char-path c "&", Char-path c "<", Char-path c ">", Char-path c "\"")

esc_char-IsEnclosed : (c : Char) (rest : String) → IsEnclosed rest → IsEnclosed (esc_char c rest)
esc_char-IsEnclosed c rest h = ground arith

decode_from-esc : (s : String) → decode_from 0 (esc s) ≡ s
unfolding esc decode_from
decode_from-esc String.[] = refl
decode_from-esc (String.◌∷◌ c s) =
    decode_from-esc_char c (esc s) ∙ ap (String.◌∷◌ c) (decode_from-esc s)

esc-IsEnclosed : (s : String) → IsEnclosed (esc s)
unfolding esc
esc-IsEnclosed String.[] = tt
esc-IsEnclosed (String.◌∷◌ c s) = esc_char-IsEnclosed c (esc s) (esc-IsEnclosed s)

-- A text that the panel escapes, the filter's value in its attribute among them, is read back by
-- the browser as it was, and cannot leave its element or its attribute in double quotes.
pub esc-attribute : (s : String) → (decode_from 0 (esc s) ≡ s) × IsEnclosed (esc s)
esc-attribute s = (decode_from-esc s, esc-IsEnclosed s)
