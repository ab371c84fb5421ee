-- ===== src/Gateway/Stats/Texts.antt =====
-- `time.Duration.String`, of a duration in nanoseconds that is not negative.
use Prim.Native.String
use ratelimit_gateway.Base.{
  ℕ, zero, suc, ◌/◌, ◌%◌, String, if◌then◌else◌, ltb, ◌==◌, decimal, template, [], ◌∷◌,
}

-- The last digits of a fraction, as many as are left to write, in front of the text after them;
-- zeros at the end are not written.
abbrev pub fraction_from : ℕ → ℕ → String → String
fraction_from zero v rest = rest
fraction_from (suc n) v String.[] =
    fraction_from n (v / 10) (if v % 10 == 0 then "" else decimal (v % 10))
fraction_from (suc n) v (String.◌∷◌ c s) =
    fraction_from n (v / 10) (String.◌++◌ (decimal (v % 10)) (String.◌∷◌ c s))

abbrev pub with_point : String → String
with_point String.[] = ""
with_point (String.◌∷◌ c s) = String.◌++◌ "." (String.◌∷◌ c s)

-- `fmtFrac`.
abbrev pub fraction : ℕ → ℕ → String
fraction digits v = with_point (fraction_from digits v "")

unfoldable pub duration_text : ℕ → String
duration_text d =
    let seconds = d / 1_000_000_000 in
    let tail = template (decimal (seconds % 60) ∷ fraction 9 (d % 1_000_000_000) ∷ "s" ∷ []) in
    let minutes = template (decimal (seconds / 60 % 60) ∷ "m" ∷ tail ∷ []) in
    if d == 0
    then "0s"
    else if ltb d 1_000
    then template (decimal d ∷ "ns" ∷ [])
    else if ltb d 1_000_000
    then template (decimal (d / 1_000) ∷ fraction 3 (d % 1_000) ∷ "µs" ∷ [])
    else if ltb d 1_000_000_000
    then template (decimal (d / 1_000_000) ∷ fraction 6 (d % 1_000_000) ∷ "ms" ∷ [])
    else if ltb seconds 60
    then tail
    else if ltb seconds 3_600
    then minutes
    else template (decimal (seconds / 3_600) ∷ "h" ∷ minutes ∷ [])
