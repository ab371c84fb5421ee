-- ===== src/Server/Routes/Mounted.antt =====
-- How the multiplexer takes a path under the console's.
use text.Mathlib.TextEquality.{Char-path}
use text.Mathlib.TextLemmas.{nil≢cons}
use Prim.Native.Char.{code}
use ratelimit_gateway.Base.{
  not, ◌&&◌, ◌||◌, if◌then◌else◌, Bool-cases, inl, inr, eq_of_str_eq, ◌≡◌, ◌≢◌, refl, ap, sym, ◌∙◌,
  String, Bool, true, false, some, str_eq, str_eq_of_ne, prepend, cut_prefix, ◌==◌, arith,
}
use ratelimit_gateway.Gateway.Tenant.{has_char}
use ratelimit_gateway.Server.Config.{starts_with_slash, ends_with_slash}
use ratelimit_gateway.Server.Config.Console.{IsSubtree}
use ratelimit_gateway.Server.Routes.{
  is_get, Route, redirect, clean_path, match_route, redirect_unclean, console_route, route,
}

-- A slash after the first character.
abbrev inner_slash : String → Bool
inner_slash String.[] = false
inner_slash (String.◌∷◌ c s) = has_char b'/' s

abbrev rest_of : String → String
rest_of String.[] = ""
rest_of (String.◌∷◌ c s) = s

has_char-prepend : (s t : String) → ends_with_slash s ≡ true → has_char b'/' (prepend s t) ≡ true
has_char-prepend String.[] t h = ground arith
has_char-prepend (String.◌∷◌ c String.[]) t h = rw h refl
has_char-prepend (String.◌∷◌ c (String.◌∷◌ d s)) t h =
    let later = has_char-prepend (String.◌∷◌ d s) t h in ground arith

inner_slash-prepend :
    (mount rest : String) → IsSubtree mount → mount ≢ "/" → inner_slash (prepend mount rest) ≡ true
inner_slash-prepend String.[] rest (starts, ends) proper = ground arith
inner_slash-prepend (String.◌∷◌ c String.[]) rest (starts, ends) proper =
    let slash : code c ≡ b'/' = ground arith in
    absurd (proper (ap (λ d. String.◌∷◌ d "") (Char-path c "/" slash)))
inner_slash-prepend (String.◌∷◌ c (String.◌∷◌ d s)) rest (starts, ends) proper =
    has_char-prepend (String.◌∷◌ d s) rest ends

inner_slash-differs :
    (path word : String)
    → inner_slash path ≡ true
    → inner_slash word ≡ false
    → str_eq path word ≡ false
inner_slash-differs path word there absent =
    str_eq_of_ne path word (λ same. let both = ap inner_slash same in ground arith)

prepend_longer : (mount rest : String) → prepend (prepend mount rest) "/" ≢ mount
prepend_longer String.[] String.[] same = nil≢cons (sym same)
prepend_longer String.[] (String.◌∷◌ c s) same = nil≢cons (sym same)
prepend_longer (String.◌∷◌ c s) rest same = prepend_longer s rest (ap rest_of same)

starts_with_slash-mounted :
    (mount rest : String) → IsSubtree mount → starts_with_slash (prepend mount rest) ≡ true
starts_with_slash-mounted String.[] rest (starts, ends) = ground arith
starts_with_slash-mounted (String.◌∷◌ c s) rest (starts, ends) = starts

cut_prefix-prepend : (mount rest : String) → cut_prefix mount (prepend mount rest) ≡ some rest
cut_prefix-prepend String.[] rest = refl
cut_prefix-prepend (String.◌∷◌ c s) rest =
    let same : (code c == code c) ≡ true = ground arith in rw same (cut_prefix-prepend s rest)

subtree_differs : (mount : String) → IsSubtree mount → str_eq mount "" ≡ false
subtree_differs mount (starts, ends) =
    str_eq_of_ne mount "" (λ blank. let both = ap ends_with_slash blank in ground arith)

match_route-prepend :
    (mount location method rest : String)
    → IsSubtree mount
    → mount ≢ "/"
    → match_route mount location method (prepend mount rest) ≡ console_route method rest
match_route-prepend mount location method rest subtree proper =
    let path = prepend mount rest in
    let inner = inner_slash-prepend mount rest subtree proper in
    rw
      (
        inner_slash-differs path "/healthz" inner refl,
        inner_slash-differs path "/readyz" inner refl,
        subtree_differs mount subtree,
        str_eq_of_ne (prepend path "/") mount (prepend_longer mount rest),
        cut_prefix-prepend mount rest,
      )
      (ground arith)

redirect_unclean-console :
    (clean path method rest : String)
    → redirect_unclean clean path (console_route method rest)
      ≡ (if str_eq clean path then console_route method rest else redirect clean)
redirect_unclean-console clean path method rest = ground arith

-- The console's path without its last slash, where that is not a path of the health checks.
abbrev pub is_bare : String → String → String → Bool
is_bare mount method clean =
    not (is_get method && (str_eq clean "/healthz" || str_eq clean "/readyz"))
    && not (ends_with_slash clean)
    && str_eq (prepend clean "/") mount

redirect_unclean-matched :
    (mount location method clean path : String)
    → IsSubtree mount
    → str_eq clean path ≡ false
    → redirect_unclean clean path (match_route mount location method clean)
      ≡ redirect (if is_bare mount method clean then location else clean)
redirect_unclean-matched mount location method clean path subtree unclean =
    let shown = subtree_differs mount subtree in ground arith

-- Where a path under the console is routed: unless it is clean or the method is CONNECT, to its clean
-- form, or to the console if that lacks only the last slash.
abbrev pub console_visit : String → String → String → String → Route
console_visit mount method path rest =
    let clean = clean_path path in
    if str_eq method "CONNECT" || str_eq clean path
    then console_route method rest
    else redirect (if is_bare mount method clean then prepend clean "/" else clean)

pub route-prepend :
    (mount method rest : String)
    → IsSubtree mount
    → mount ≢ "/"
    → let path = prepend mount rest in
      route mount method path ≡ console_visit mount method path rest
unfolding route
route-prepend mount method rest subtree proper =
    let path = prepend mount rest in
    let clean = clean_path path in
    let location = prepend clean "/" in
    let matched = match_route-prepend mount location method rest subtree proper in
    elim (Bool-cases (str_eq method "CONNECT")) [
      | inl connect ↦ rw (connect, starts_with_slash-mounted mount rest subtree) matched
      | inr other ↦ elim (Bool-cases (str_eq clean path)) [
        | inl same ↦
            rw (other, same)
              (ap (λ p. redirect_unclean clean path (match_route mount location method p))
                  (eq_of_str_eq clean path same)
                ∙ ap (redirect_unclean clean path) matched
                ∙ redirect_unclean-console clean path method rest
                ∙ rw same refl)
        | inr unclean ↦
            rw (other, unclean)
              (redirect_unclean-matched mount location method clean path subtree unclean)
      ]
    ]
