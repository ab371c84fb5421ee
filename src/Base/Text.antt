-- ===== src/Base/Text.antt =====
-- Texts built from pieces.
use Prim.Native.Char.{Char, code}
use Prim.Native.String
use Prim.Native.String.{String}
use Prim.Native.Nat.{ℕ, zero, suc, ◌+◌, ◌/◌, ◌%◌}
use mathlib.Core.Path.{◌≡◌}
use mathlib.Core.Logic.{◌≢◌, inl, inr}
use text.Mathlib.TextEquality.{eq_iff}
use native.Mathlib.Omega.{arith}
use mathlib.Core.Option.{Option, none, some}
use mathlib.Core.List.{List, [], ◌∷◌}
use mathlib.Core.Bool.{Bool, true, false, ◌&&◌, ◌||◌}
use ratelimit_gateway.Base.Tests.{◌==◌, leb, str_eq, Bool-cases, if◌then◌else◌}

-- A template literal or a chain of `+` on texts: its pieces, joined.
abbrev pub template : List String → String
template [] = ""
template (s ∷ ss) = String.◌++◌ s (template ss)

-- `parts.join(",")`.
abbrev pub join_comma : List String → String
join_comma [] = ""
join_comma (s ∷ []) = s
join_comma (s ∷ t ∷ ss) = String.◌++◌ s (String.◌++◌ "," (join_comma (t ∷ ss)))

-- `s ++ t`, by recursion on `s`: it computes at a literal in front of any text.
abbrev pub prepend : String → String → String
prepend String.[] t = t
prepend (String.◌∷◌ c s) t = String.◌∷◌ c (prepend s t)

-- The white space that `trim` removes.
abbrev pub is_space : Char → Bool
is_space c =
    (leb 9 (code c) && leb (code c) 13)
    || code c == 32
    || code c == 0xa0
    || code c == 0x1680
    || (leb 0x2000 (code c) && leb (code c) 0x200a)
    || code c == 0x2028
    || code c == 0x2029
    || code c == 0x202f
    || code c == 0x205f
    || code c == 0x3000
    || code c == 0xfeff

unfoldable pub trim_start : String → String
trim_start String.[] = ""
trim_start (String.◌∷◌ c s) = let rest = trim_start s in if is_space c then rest else String.◌∷◌ c s

abbrev pub cons_unless_blank : Char → String → String
cons_unless_blank c String.[] = if is_space c then "" else String.◌∷◌ c ""
cons_unless_blank c (String.◌∷◌ d s) = String.◌∷◌ c (String.◌∷◌ d s)

unfoldable pub trim_end : String → String
trim_end String.[] = ""
trim_end (String.◌∷◌ c s) = cons_unless_blank c (trim_end s)

-- `s.trim()`.
unfoldable pub trim : String → String
trim s = trim_end (trim_start s)

-- Go's `strings.TrimFunc(s, p)`.
abbrev pub trim_left : (Char → Bool) → String → String
trim_left p String.[] = ""
trim_left p (String.◌∷◌ c s) = let rest = trim_left p s in if p c then rest else String.◌∷◌ c s

abbrev pub cons_unless : (Char → Bool) → Char → String → String
cons_unless p c String.[] = if p c then "" else String.◌∷◌ c ""
cons_unless p c (String.◌∷◌ d s) = String.◌∷◌ c (String.◌∷◌ d s)

abbrev pub trim_right : (Char → Bool) → String → String
trim_right p String.[] = ""
trim_right p (String.◌∷◌ c s) = cons_unless p c (trim_right p s)

abbrev pub trim_func : (Char → Bool) → String → String
trim_func p s = trim_right p (trim_left p s)

-- Go's `strings.Cut(s, c)` at a character: what is before it, and what is after it if it is there.
abbrev pub cut : ℕ → String → String × Option String
cut sep String.[] = ("", none)
cut sep (String.◌∷◌ c s) =
    let rest = cut sep s in if code c == sep then ("", some s) else (String.◌∷◌ c rest.0, rest.1)

-- What is left after a prefix.
abbrev pub cut_prefix : String → String → Option String
cut_prefix String.[] s = some s
cut_prefix (String.◌∷◌ p ps) String.[] = none
cut_prefix (String.◌∷◌ p ps) (String.◌∷◌ c s) =
    let rest = cut_prefix ps s in if code p == code c then rest else none

-- The decimal digits of a number, on fuel: a number below 2 ^ 64 has at most 20.
digits_from : ℕ → ℕ → String
digits_from zero n = ""
digits_from (suc fuel) n =
    let more = digits_from fuel (n / 10) in
    let last : String = String.slice "0123456789" (n % 10) (n % 10 + 1) in
    if n / 10 == 0 then last else String.◌++◌ more last

unfoldable pub decimal : ℕ → String
unfolding digits_from
decimal n = digits_from 20 n

-- Equality of texts, as a path and as a test.
pub eq_of_str_eq : (s t : String) → str_eq s t ≡ true → s ≡ t
eq_of_str_eq s t same = (eq_iff s t).0 same

pub ne_of_str_eq : (s t : String) → str_eq s t ≡ false → s ≢ t
ne_of_str_eq s t different same = let both = (eq_iff s t).1 same in ground arith

pub str_eq_of_ne : (s t : String) → s ≢ t → str_eq s t ≡ false
str_eq_of_ne s t different = elim (Bool-cases (str_eq s t)) [
  | inl same ↦ absurd (different (eq_of_str_eq s t same))
  | inr other ↦ other
]
