-- ===== src/Dashboard/Format.antt =====
-- The formatting helpers of app.js.
pub mod Escape
use Prim.Native.Char.{Char, code}
use Prim.Native.String
use ratelimit_gateway.Base.{String, ◌||◌, [], ◌∷◌, if◌then◌else◌, ◌==◌, template, prepend}
use ratelimit_gateway.Number.{Number, le, is_falsy}

module _ {ℓ} {N : Type ℓ} ⦃num : Number N⦄ where
  open num use {nat, div, mul, rem, lt, floor, round, text, fixed}

  unfoldable pub format_count : N → String
  format_count n =
      if le (nat 1000000) n
      then template (fixed 1 (div n (nat 1000000)) ∷ "M" ∷ [])
      else if le (nat 10000) n
      then template (fixed 0 (div n (nat 1000)) ∷ "k" ∷ [])
      else if le (nat 1000) n
      then template (fixed 1 (div n (nat 1000)) ∷ "k" ∷ [])
      else text (round n)

  unfoldable pub format_duration : N → String
  format_duration seconds =
      let s = floor seconds in
      if lt s (nat 60)
      then template (text s ∷ "s" ∷ [])
      else if lt s (nat 3600)
      then template (text (floor (div s (nat 60))) ∷ "m " ∷ text (rem s (nat 60)) ∷ "s" ∷ [])
      else template (
          text (floor (div s (nat 3600)))
          ∷ "h "
          ∷ text (floor (div (rem s (nat 3600)) (nat 60)))
          ∷ "m"
          ∷ [])

  unfoldable pub format_latency : N → String
  format_latency seconds =
      let ms = mul seconds (nat 1000) in
      if is_falsy seconds || le seconds (nat 0)
      then "—"
      else if lt ms (nat 1)
      then template (fixed 0 (mul ms (nat 1000)) ∷ "µs" ∷ [])
      else if lt ms (nat 100)
      then template (fixed 2 ms ∷ "ms" ∷ [])
      else template (fixed 0 ms ∷ "ms" ∷ [])

-- The replacement of one character, in front of the rest of the text.
abbrev pub escape_char : Char → String → String
escape_char c rest =
    if code c == b'&'
    then prepend "&amp;" rest
    else if code c == b'<'
    then prepend "&lt;" rest
    else if code c == b'>'
    then prepend "&gt;" rest
    else if code c == 34
    then prepend "&quot;" rest
    else if code c == 39
    then prepend "&#39;" rest
    else String.◌∷◌ c rest

-- `s.replace(/[&<>"']/g, …)`.
unfoldable pub escape_html : String → String
escape_html String.[] = ""
escape_html (String.◌∷◌ c s) = escape_char c (escape_html s)
