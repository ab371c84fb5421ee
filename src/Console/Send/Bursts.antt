-- ===== src/Console/Send/Bursts.antt =====
-- Bursts and the requests on their way: `sendBurst` of the console's app.js.
use ratelimit_gateway.Base.{
  ℕ, zero, suc, ◌+◌, ◌≡◌, refl, ap, ◌∙◌, false, List, [], ◌∷◌, ◌++◌, if◌then◌else◌, length,
  length-append, arith,
}
use ratelimit_gateway.Console.Send.{
  Sender, initial_sender, send_burst, burst_answered, toggle_flood, flood_woken, Cause,
  burst_response, flood_response, Step, click_send, click_flood, answer_burst, answer_flood,
  wake_flood, Reach, here, next,
}

-- The buttons are disabled while one call of `sendBurst` has not returned, and there is no second.
abbrev pub IsExclusive : Sender → Type 0
IsExclusive s = length s.bursts ≡ (if s.busy then 1 else 0)

send_burst-IsExclusive :
    (n : ℕ) (s : Sender) → s.busy ≡ false → IsExclusive s → IsExclusive (send_burst n s)
unfolding send_burst
send_burst-IsExclusive zero s free h = ground arith
send_burst-IsExclusive (suc n) s free h = ground arith

burst_answered-IsExclusive :
    (before : List ℕ) (left : ℕ) (after : List ℕ) (s : Sender)
    → s.bursts ≡ before ++ suc left ∷ after
    → IsExclusive s
    → IsExclusive (burst_answered before left after s)
unfolding burst_answered
burst_answered-IsExclusive before zero after s e h =
    let split = ap length e ∙ length-append before (suc zero ∷ after) in
    let rest = length-append before after in ground arith
burst_answered-IsExclusive before (suc left) after s e h =
    let split = ap length e ∙ length-append before (suc (suc left) ∷ after) in
    let rest = length-append before (suc left ∷ after) in ground arith

Step-IsExclusive : {cause : Cause} {s t : Sender} → Step cause s t → IsExclusive s → IsExclusive t
unfolding toggle_flood flood_woken
Step-IsExclusive (click_send {s} n free) h = send_burst-IsExclusive n s free h
Step-IsExclusive click_flood h = ground arith
Step-IsExclusive (answer_burst {s} before left after e) h =
    burst_answered-IsExclusive before left after s e h
Step-IsExclusive (answer_flood others e) h = h
Step-IsExclusive (wake_flood others e) h = ground arith

Reach-busy : {causes : List Cause} {s : Sender} → Reach initial_sender causes s → IsExclusive s
Reach-busy here = refl
Reach-busy (next r st) = Step-IsExclusive st (Reach-busy r)

-- The responses among the causes.
abbrev is_response : Cause → ℕ
is_response burst_response = 1
is_response flood_response = 1
is_response _ = 0

abbrev pub responses : List Cause → ℕ
responses [] = 0
responses (c ∷ cs) = is_response c + responses cs

-- The requests on their way: one for each burst, and one for each loop that waits.
abbrev pub in_flight : Sender → ℕ
in_flight s = length s.bursts + s.waiting

send_burst-issued :
    (n : ℕ) (s : Sender)
    → (send_burst n s).issued + in_flight s ≡ s.issued + in_flight (send_burst n s)
unfolding send_burst
send_burst-issued zero s = refl
send_burst-issued (suc n) s = omega arith

burst_answered-issued :
    (before : List ℕ) (left : ℕ) (after : List ℕ) (s : Sender)
    → s.bursts ≡ before ++ suc left ∷ after
    → let t = burst_answered before left after s in
      t.issued + in_flight s ≡ s.issued + in_flight t + 1
unfolding burst_answered
burst_answered-issued before zero after s e =
    omega (arith, ap length e ∙ length-append before (suc zero ∷ after), length-append before after)
burst_answered-issued before (suc left) after s e = omega (
  arith,
  ap length e ∙ length-append before (suc (suc left) ∷ after),
  length-append before (suc left ∷ after),
)

Step-issued :
    {cause : Cause} {s t : Sender}
    → Step cause s t
    → t.issued + in_flight s ≡ s.issued + in_flight t + is_response cause
unfolding toggle_flood flood_woken
Step-issued (click_send {s} n free) = omega (arith, send_burst-issued n s)
Step-issued click_flood = ground arith
Step-issued (answer_burst {s} before left after e) = burst_answered-issued before left after s e
Step-issued (answer_flood others e) = omega arith
Step-issued (wake_flood others e) = ground arith

Reach-issued :
    {causes : List Cause} {s : Sender}
    → Reach initial_sender causes s
    → s.issued ≡ responses causes + in_flight s
Reach-issued here = refl
Reach-issued (next r st) = omega (arith, Reach-issued r, Step-issued st)

-- Whatever the order of clicks, responses and pauses: no two bursts run at a time, and the buttons
-- of the bursts are disabled exactly while one runs; every request that was issued has been
-- answered or is on its way, and no response is counted that was not asked for.
pub Reach-IsExclusive :
    {causes : List Cause} {s : Sender}
    → Reach initial_sender causes s
    → IsExclusive s × (s.issued ≡ responses causes + in_flight s)
Reach-IsExclusive r = (Reach-busy r, Reach-issued r)
