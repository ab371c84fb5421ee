-- ===== src/Console/Send/Floods.antt =====
-- How many flood loops run.
use ratelimit_gateway.Base.{
  ℕ, zero, suc, ◌+◌, ◌*◌, ◌≡◌, refl, ◌∙◌, true, false, List, [], ◌∷◌, length, All, arith,
}
use ratelimit_gateway.Console.Send.{
  Sender, initial_sender, toggle_flood, flood_woken, Cause, burst_click, flood_click,
  burst_response, flood_response, flood_pause, Step, click_send, click_flood, answer_burst,
  answer_flood, wake_flood, Reach, here, next,
}

abbrev pub loops : Sender → ℕ
loops s = s.waiting + s.sleeping

abbrev pub flood_clicks : List Cause → ℕ
flood_clicks [] = 0
flood_clicks (flood_click ∷ cs) = 1 + flood_clicks cs
flood_clicks (burst_click ∷ cs) = flood_clicks cs
flood_clicks (burst_response ∷ cs) = flood_clicks cs
flood_clicks (flood_response ∷ cs) = flood_clicks cs
flood_clicks (flood_pause ∷ cs) = flood_clicks cs

-- A state in which flood mode is on and so many loops wait for their responses.
record Crowd (n : ℕ) : Type 0 where
  causes : List Cause
  sender : Sender
  reached : Reach initial_sender causes sender
  on : sender.flooding ≡ true
  many : loops sender ≡ n
  clicked : flood_clicks causes + 1 ≡ 2 * n

first_loop : Crowd 1
unfolding toggle_flood
first_loop = record {
  causes = flood_click ∷ [];
  sender = toggle_flood initial_sender;
  reached = next here click_flood;
  on = refl;
  many = refl;
  clicked = refl;
}

-- Off and on again, before any loop has tested `state.flooding`.
one_more : (n : ℕ) → Crowd n → Crowd (suc n)
unfolding toggle_flood
one_more n c = record {
  causes = flood_click ∷ flood_click ∷ c.causes;
  sender = toggle_flood (toggle_flood c.sender);
  reached = next (next c.reached click_flood) click_flood;
  on = ground (arith, c.on);
  many = ground (arith, c.on, c.many);
  clicked = omega (arith, c.clicked);
}

crowd : (n : ℕ) → Crowd (suc n)
crowd zero = first_loop
crowd (suc n) = one_more (suc n) (crowd n)

-- Flood mode does not run one loop at most: for every number, so many loops and more can run at
-- once while it is on, since a click that turns it on starts a loop also where the loops before it
-- have not yet seen that it was off.
pub Reach-loops_unbounded :
    (n : ℕ)
    → (causes : List Cause) × (s : Sender) × Reach initial_sender causes s
      × (s.flooding ≡ true)
      × (loops s ≡ suc n)
      × (flood_clicks causes + 1 ≡ 2 * suc n)
Reach-loops_unbounded n =
    let c = crowd n in (c.causes, c.sender, c.reached, c.on, c.many, c.clicked)

abbrev pub IsLoopStep : Cause → Type 0
IsLoopStep flood_response = Unit
IsLoopStep flood_pause = Unit
IsLoopStep _ = ⊥

loop-Step :
    {cause : Cause} {s t : Sender}
    → Step cause s t
    → s.flooding ≡ false
    → IsLoopStep cause
    → (t.flooding ≡ false)
      × (t.issued ≡ s.issued)
      × (1 + (2 * t.waiting + t.sleeping) ≡ 2 * s.waiting + s.sleeping)
unfolding flood_woken
loop-Step (click_send n free) off l = absurd l
loop-Step click_flood off l = absurd l
loop-Step (answer_burst before left after e) off l = absurd l
loop-Step (answer_flood others e) off l = (off, refl, omega arith)
loop-Step (wake_flood others e) off l = ground arith

-- Once flood mode is off, and until it is clicked again, the loops issue no request, and each ends
-- after its response and its pause: there are no more steps of the loops than two for each that
-- waits and one for each that sleeps.
pub Reach-floods_end :
    (s : Sender) {causes : List Cause} {t : Sender}
    → s.flooding ≡ false
    → Reach s causes t
    → All IsLoopStep causes
    → (t.flooding ≡ false)
      × (t.issued ≡ s.issued)
      × (length causes + (2 * t.waiting + t.sleeping) ≡ 2 * s.waiting + s.sleeping)
Reach-floods_end s off here _ = (off, refl, omega arith)
Reach-floods_end s off (next r st) (l, ls) =
    let (off', issued, count) = Reach-floods_end s off r ls in
    let (off'', issued', count') = loop-Step st off' l in (off'', issued' ∙ issued, omega arith)
