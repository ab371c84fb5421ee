-- ===== src/Console/Record.antt =====
-- `record` of the console's app.js: one finished request in the totals, the meter, the dots and
-- the log.
pub mod Totals
pub mod History
use ratelimit_gateway.Base.{ℕ, ◌+◌, String, List, [], ◌∷◌, if◌then◌else◌, ◌==◌}
use ratelimit_gateway.Number.{Number}
use ratelimit_gateway.Console.Result.{Result}
use ratelimit_gateway.Console.Meter.{Meter, update_meter}
use ratelimit_gateway.Console.Log.{Dot, Node, append_dot, append_log, cleared_log}

-- The counters of `state`, and the parts of the page that `record` writes.
pub record Console {ℓ} (N : Type ℓ) : Type ℓ where
  pub sent : ℕ
  pub allowed : ℕ
  pub throttled : ℕ
  pub meter : Meter N
  pub dots : List Dot
  pub log : List Node
  pub total_sent : String
  pub total_allowed : String
  pub total_throttled : String

-- A result with the two readings of the clock that recording it takes.
pub record Timed {ℓ} (N : Type ℓ) : Type ℓ where
  pub result : Result N
  pub now : N
  pub time : String

module _ {ℓ} {N : Type ℓ} where
  -- The clear button.
  unfoldable pub clear : Console N → Console N
  clear c = record c { log = cleared_log; dots = [] }

module _ {ℓ} {N : Type ℓ} ⦃num : Number N⦄ where
  open num use {nat, text}

  unfoldable pub record_result : Timed N → Console N → Console N
  record_result t c =
      let sent = c.sent + 1 in
      let allowed = if t.result.status == 200 then c.allowed + 1 else c.allowed in
      let throttled =
        if t.result.status == 200
        then c.throttled
        else if t.result.status == 429
        then c.throttled + 1
        else c.throttled in
      record {
        sent = sent;
        allowed = allowed;
        throttled = throttled;
        meter = update_meter t.now t.result c.meter;
        dots = append_dot t.result c.dots;
        log = append_log t.time t.result c.log;
        total_sent = text (nat sent);
        total_allowed = text (nat allowed);
        total_throttled = text (nat throttled);
      }

  -- Any number of finished requests, in the order in which they finish.
  unfoldable pub record_all : List (Timed N) → Console N → Console N
  record_all [] c = c
  record_all (t ∷ ts) c = record_all ts (record_result t c)
