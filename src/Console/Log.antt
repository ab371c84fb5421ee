-- ===== src/Console/Log.antt =====
-- The dots and the log: `appendDot`, `appendLog` and the clear button of app.js.
pub mod Bounded
use ratelimit_gateway.Base.{
  ℕ, zero, suc, ◌+◌, String, Bool, true, false, Option, none, some, List, [], ◌∷◌, ◌++◌,
  if◌then◌else◌, ltb, ◌==◌, length, template,
}
use mathlib.Core.List.{drop_last}
use ratelimit_gateway.Number.{Number}
use ratelimit_gateway.Console.Result.{Result}
use ratelimit_gateway.Console.Meter.{text_or}

abbrev pub max_log_rows : ℕ
max_log_rows = 60

abbrev pub max_dots : ℕ
max_dots = 200

pub record Dot : Type 0 where
  pub class_name : String
  pub title : String

-- The interpolated parts of a row of the log; the fixed markup around them is left out.
pub record Row : Type 0 where
  pub time : String
  pub status_class : String
  pub status_text : String
  pub detail : String
  pub remaining : String

-- A child node of the log: white space between tags, the paragraph of class `empty`, or a row.
pub data Node : Type 0 where
  white_space : Node
  placeholder : Node
  row : Row → Node

-- `log.children`, which leaves out the text nodes.
abbrev pub children : List Node → List Node
children [] = []
children (white_space ∷ ns) = children ns
children (placeholder ∷ ns) = placeholder ∷ children ns
children (row r ∷ ns) = row r ∷ children ns

-- `log.querySelector(".empty")?.remove()`.
unfoldable pub remove_placeholder : List Node → List Node
remove_placeholder [] = []
remove_placeholder (white_space ∷ ns) = white_space ∷ remove_placeholder ns
remove_placeholder (placeholder ∷ ns) = ns
remove_placeholder (row r ∷ ns) = row r ∷ remove_placeholder ns

-- `while (log.children.length > MAX_LOG_ROWS) log.removeChild(log.lastChild)`; each round removes
-- a node, so as many rounds as there are nodes are enough.
unfoldable pub trim_log : ℕ → List Node → List Node
trim_log zero ns = ns
trim_log (suc fuel) ns =
    let shorter = trim_log fuel (drop_last ns) in
    if ltb max_log_rows (length (children ns)) then shorter else ns

-- `while (dots.children.length > MAX_DOTS) dots.removeChild(dots.firstChild)`; the container has
-- no text nodes.
unfoldable pub trim_dots : List Dot → List Dot
trim_dots [] = []
trim_dots (d ∷ ds) =
    let shorter = trim_dots ds in if ltb max_dots (length (d ∷ ds)) then shorter else d ∷ ds

unfoldable pub prepend_row : Row → List Node → List Node
prepend_row r ns = let grown = row r ∷ remove_placeholder ns in trim_log (length grown) grown

-- The page as it is loaded, and what the clear button leaves.
abbrev pub initial_log : List Node
initial_log = white_space ∷ placeholder ∷ white_space ∷ []

abbrev pub cleared_log : List Node
cleared_log = placeholder ∷ []

module _ {ℓ} {N : Type ℓ} ⦃num : Number N⦄ where
  open num use {nat, text, fixed}

  unfoldable pub dot_of : Result N → Dot
  dot_of result = record {
    class_name = template (
        "dot"
        ∷ (if result.status == 429
            then " rejected"
            else if result.status == 200
            then ""
            else " failed")
        ∷ []);
    title =
        if result.status == 200
        then template ("200 · " ∷ text_or "?" result.remaining ∷ " remaining" ∷ [])
        else if result.status == 429
        then template ("429 · retry in " ∷ text_or "?" result.retry_after ∷ "s" ∷ [])
        else "request failed";
  }

  unfoldable pub append_dot : Result N → List Dot → List Dot
  append_dot result dots = trim_dots (dots ++ dot_of result ∷ [])

  unfoldable pub detail_of : Result N → String
  detail_of result =
      if result.status == 429
      then template ("throttled · Retry-After " ∷ text_or "?" result.retry_after ∷ "s" ∷ [])
      else if result.error
      then "request failed"
      else if result.degraded
      then "allowed (degraded — quota unenforced)"
      else "allowed"

  -- The text is the time of day.
  unfoldable pub row_of : String → Result N → Row
  row_of time result = record {
    time = time;
    status_class =
        if result.status == 200 then "s200" else if result.status == 429 then "s429" else "err";
    status_text = if result.status == 0 then "ERR" else text (nat result.status);
    detail = detail_of result;
    remaining =
        template (text_or "—" result.remaining ∷ " left · " ∷ fixed 0 result.elapsed ∷ "ms" ∷ []);
  }

  unfoldable pub append_log : String → Result N → List Node → List Node
  append_log time result log = prepend_row (row_of time result) log
