-- ===== src/Dashboard/Chart.antt =====
-- The throughput chart: `drawChart` of app.js. What it does to the canvas is a list of commands.
use ratelimit_gateway.Base.{
  ℕ, suc, ◌+◌, String, Bool, List, [], ◌∷◌, ◌++◌, map, any, if◌then◌else◌, ltb, length, template,
  ◌&&◌,
}
use ratelimit_gateway.Number.{Number, max, is_falsy}
use ratelimit_gateway.Dashboard.Kpis.{Rates}

-- `HISTORY`: the samples that are kept and drawn.
abbrev pub history_size : ℕ
history_size = 60

pub data Command {ℓ} (N : Type ℓ) : Type ℓ where
  set_transform : N → Command N
  clear_rect : N → N → Command N
  stroke_style : String → Command N
  fill_style : String → Command N
  line_width : N → Command N
  begin_path : Command N
  move_to : N → N → Command N
  line_to : N → N → Command N
  close_path : Command N
  fill : Command N
  stroke : Command N

-- What the browser knows of the page: sizes in CSS pixels, the pixel ratio, and three colours.
pub record Viewport {ℓ} (N : Type ℓ) : Type ℓ where
  pub client_width : N
  pub client_height : N
  pub pixel_ratio : N
  pub allowed_color : String
  pub throttled_color : String
  pub grid_color : String

-- The canvas's backing store, the drawing, and the two texts beside it.
pub record Chart {ℓ} (N : Type ℓ) : Type ℓ where
  pub width : N
  pub height : N
  pub commands : List (Command N)
  pub peak : String
  pub empty_hidden : Bool

module _ {ℓ} {N : Type ℓ} ⦃num : Number N⦄ where
  open num use {nat, add, sub, mul, div, lt, eq, round, fixed}

  abbrev pub total_of : Rates N → N
  total_of s = add s.allowed s.throttled

  -- `Math.max(1, ...totals)`.
  unfoldable pub peak_of : N → List (Rates N) → N
  peak_of best [] = best
  peak_of best (s ∷ ss) = peak_of (max best (total_of s)) ss

  -- The lines of the grid from the i-th on, with some to go.
  unfoldable pub grid_lines : N → N → ℕ → ℕ → List (Command N)
  grid_lines width height i ℕ.zero = []
  grid_lines width height i (suc left) =
      let y = add (round (mul (div height (nat 4)) (nat i))) (div (nat 1) (nat 2)) in
      begin_path
      ∷ move_to (nat 0) y
      ∷ line_to width y
      ∷ stroke
      ∷ grid_lines width height (i + 1) left

  abbrev pub scale_y : N → N → N → N
  scale_y height peak v = sub height (mul (div v peak) (sub height (nat 6)))

  -- The points of a series from the i-th sample on; the newest one is at the right edge.
  unfoldable pub points : N → N → N → N → (Rates N → N) → ℕ → List (Rates N) → List (N × N)
  points step offset height peak key i [] = []
  points step offset height peak key i (s ∷ ss) =
      (mul (add (nat i) offset) step, scale_y height peak (key s))
      ∷ points step offset height peak key (i + 1) ss

  abbrev pub line_at : N × N → Command N
  line_at (x, y) = line_to x y

  -- `if (i === 0) moveTo else lineTo`.
  abbrev pub outline : List (N × N) → List (Command N)
  outline [] = []
  outline ((x, y) ∷ ps) = move_to x y ∷ map line_at ps

  unfoldable pub draw_series : N → N → List (N × N) → String → List (Command N)
  draw_series right height ps color =
      (begin_path ∷ move_to (nat 0) height ∷ map line_at ps)
      ++ ((line_to right height
            ∷ close_path
            ∷ fill_style (template (color ∷ "26" ∷ []))
            ∷ fill
            ∷ begin_path
            ∷ outline ps)
          ++ (stroke_style color ∷ line_width (div (nat 7) (nat 4)) ∷ stroke ∷ []))

  -- The two series, the outer one first.
  unfoldable pub draw_history : Viewport N → N → N → N → List (Rates N) → List (Command N)
  draw_history view width height peak history =
      let step = div width (sub (nat history_size) (nat 1)) in
      let offset = sub (nat history_size) (nat (length history)) in
      let right = mul (sub (nat history_size) (nat 1)) step in
      let of_series = points step offset height peak in
      if ltb (length history) 2
      then []
      else draw_series right height (of_series total_of 0 history) view.throttled_color
        ++ draw_series right height (of_series (λ s. s.allowed) 0 history) view.allowed_color

  abbrev pub or_else : N → N → N
  or_else a b = if is_falsy a then b else a

  unfoldable pub draw_chart : Viewport N → List (Rates N) → Chart N → Chart N
  draw_chart view history chart =
      let dpr = or_else view.pixel_ratio (nat 1) in
      let width = view.client_width in
      let height = or_else view.client_height (nat 180) in
      let fits = eq chart.width (mul width dpr) && eq chart.height (mul height dpr) in
      let peak = peak_of (nat 1) history in
      record {
        width = if fits then chart.width else mul width dpr;
        height = if fits then chart.height else mul height dpr;
        commands =
            (set_transform dpr
              ∷ clear_rect width height
              ∷ stroke_style view.grid_color
              ∷ line_width (nat 1)
              ∷ [])
            ++ (grid_lines width height 0 5 ++ draw_history view width height peak history);
        peak = template ("peak " ∷ fixed 0 peak ∷ "/s" ∷ []);
        empty_hidden = any (λ s. lt (nat 0) (total_of s)) history;
      }
