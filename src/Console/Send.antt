-- ===== src/Console/Send.antt =====
-- The sending of requests: `sendBurst`, `setBusy`, `floodLoop` and `toggleFlood` of the console's
-- app.js. Every wait of these functions ends a step; which wait ends next is the browser's choice,
-- so the script is a step relation. `sendOne` does not throw.
pub mod Bursts
pub mod Floods
use ratelimit_gateway.Base.{
  ℕ, zero, suc, ◌+◌, ◌<◌, ◌≡◌, String, Bool, true, false, not, List, [], ◌∷◌, ◌++◌, if◌then◌else◌,
}

-- `bursts` has an entry for each call of `sendBurst` that has not returned: the requests that it
-- has still to wait for, the one on its way among them. `waiting` and `sleeping` count the calls of
-- `floodLoop` that wait for a response, and those in the pause behind it. `issued` counts all
-- requests, and `busy` says that the buttons are disabled.
pub record Sender : Type 0 where
  pub flooding : Bool
  pub flood_label : String
  pub busy : Bool
  pub bursts : List ℕ
  pub waiting : ℕ
  pub sleeping : ℕ
  pub issued : ℕ

abbrev pub initial_sender : Sender
initial_sender = record {
  flooding = false;
  flood_label = "Flood";
  busy = false;
  bursts = [];
  waiting = 0;
  sleeping = 0;
  issued = 0;
}

-- `sendBurst(count)` up to its first wait; with no request to send it returns at once.
unfoldable pub send_burst : ℕ → Sender → Sender
send_burst zero s = record s { busy = false }
send_burst (suc n) s = record s { busy = true; bursts = suc n ∷ s.bursts; issued = s.issued + 1 }

-- The response of a burst with so many requests to wait for, between two parts of the list: the
-- loop sends the next one, or ends and enables the buttons.
unfoldable pub burst_answered : List ℕ → ℕ → List ℕ → Sender → Sender
burst_answered before zero after s = record s { busy = false; bursts = before ++ after }
burst_answered before (suc left) after s = record s {
  bursts = before ++ suc left ∷ after;
  issued = s.issued + 1;
}

-- `toggleFlood()`: a loop starts by sending.
unfoldable pub toggle_flood : Sender → Sender
toggle_flood s =
    if s.flooding then record s { flooding = false; flood_label = "Flood" } else record s {
      flooding = true;
      flood_label = "Stop";
      waiting = s.waiting + 1;
      issued = s.issued + 1;
    }

-- A loop behind its pause tests `state.flooding` again; the number is of the other loops that
-- sleep.
unfoldable pub flood_woken : ℕ → Sender → Sender
flood_woken others s =
    if s.flooding
    then record s { sleeping = others; waiting = s.waiting + 1; issued = s.issued + 1 }
    else record s { sleeping = others }

-- A step of the script, told apart by what starts it.
pub data Cause : Type 0 where
  burst_click flood_click burst_response flood_response flood_pause : Cause

pub data Step : Cause → Sender → Sender → Type 0 where
  -- The button of a burst fires only while it is enabled.
  click_send : {s : Sender} (n : ℕ) → s.busy ≡ false → Step burst_click s (send_burst n s)
  click_flood : {s : Sender} → Step flood_click s (toggle_flood s)
  answer_burst :
      {s : Sender} (before : List ℕ) (left : ℕ) (after : List ℕ)
      → s.bursts ≡ before ++ suc left ∷ after
      → Step burst_response s (burst_answered before left after s)
  answer_flood :
      {s : Sender} (others : ℕ)
      → s.waiting ≡ others + 1
      → Step flood_response s (record s { waiting = others; sleeping = s.sleeping + 1 })
  wake_flood :
      {s : Sender} (others : ℕ)
      → s.sleeping ≡ others + 1
      → Step flood_pause s (flood_woken others s)

-- The states that the script can come to, with the causes of the steps, the last one first.
pub data Reach (start : Sender) : List Cause → Sender → Type 0 where
  here : Reach start [] start
  next :
      {causes : List Cause} {cause : Cause} {s t : Sender}
      → Reach start causes s
      → Step cause s t
      → Reach start (cause ∷ causes) t
