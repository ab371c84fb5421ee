-- ===== src/Explain/Texts.antt =====
-- The texts of `window.EXPLAIN` in explain.js.
use ratelimit_gateway.Base.{String, List, [], ◌∷◌, template}
use ratelimit_gateway.Explain.Glossary.{Entry, ExplainStep, Explanation}

abbrev step_of : String → String → ExplainStep
step_of title text = record { title = title; text = text }

abbrev entry_of : String → String → String → String × Entry
entry_of term short why = (term, record { short = short; why = why })

abbrev pub explanation_steps : List ExplainStep
explanation_steps =
    step_of "A request arrives" (
      template (
        "The gateway works out who is asking — from an API key if there is one, otherwise from "
        ∷ "the IP address — and looks up which tier they belong to." ∷ []))
    ∷ step_of "The shared counter is consulted" (
        template (
          "The limiter asks Redis whether this caller has budget left. The check and the update "
          ∷ "happen in one indivisible step, so two simultaneous requests can never both succeed "
          ∷ "on the last remaining slot." ∷ []))
    ∷ step_of "Allowed, or refused" (
        template (
          "If there is budget, the request is passed upstream. If not, it comes back as 429 Too "
          ∷ "Many Requests, with a header saying how long to wait before retrying." ∷ []))
    ∷ step_of "If the counter is unreachable" (
        template (
          "Should Redis go down, the breaker opens and the gateway lets traffic through rather "
          ∷ "than blocking everything. A rate limiter that takes the whole site offline when it "
          ∷ "fails is worse than no rate limiter." ∷ []))
    ∷ []

-- In the order of `Object.entries`, which gives a key that is an index first.
abbrev pub glossary : List (String × Entry)
glossary =
    entry_of "429" "The HTTP status meaning 'Too Many Requests' — the polite way to say slow down."
      "It is paired with a Retry-After header so a well-behaved client knows exactly when to come back."
    ∷ entry_of "rate limiter"
        "The component that decides how many requests a caller is allowed in a given period."
        "Without one, a single misbehaving client can consume all your capacity."
    ∷ entry_of "token bucket"
        "A bucket that refills steadily. Each request takes one token; no tokens means refused."
        "It allows a short burst — whatever has collected in the bucket — while holding the long-run average steady."
    ∷ entry_of "sliding window"
        "Keeps the timestamp of every recent request and counts how many fall inside the last N seconds."
        "The most accurate method, and the most expensive: its memory grows with the request rate."
    ∷ entry_of "fixed window"
        "Counts requests per clock period and resets at the boundary — 100 per minute, reset on the minute."
        "Cheapest and slightly wrong: a caller can send a full allowance either side of the boundary and get double through."
    ∷ entry_of "burst" "A sudden clump of requests arriving much faster than the steady allowance."
        "Real traffic is bursty, so a limiter that only enforces an average will either refuse legitimate spikes or let too much through."
    ∷ entry_of "tier" "A named plan — anonymous, free, pro, internal — each with its own limits." ""
    ∷ entry_of "quota" "How much a particular caller is allowed over a period." ""
    ∷ entry_of "throttled" "Refused because the caller has gone over their limit." ""
    ∷ entry_of "breaker"
        "A circuit breaker: after repeated failures talking to a dependency, it stops trying for a while."
        "Hammering a service that is already struggling keeps it down. Backing off gives it room to recover."
    ∷ entry_of "fail policy"
        "What to do when the limiter itself cannot reach Redis — let traffic through, or block it."
        "This one fails open. Availability of the whole site beats perfect enforcement of a quota."
    ∷ entry_of "p95"
        "The time 95 out of 100 requests finished within. Five in a hundred were slower."
        "Averages hide the bad cases. Users notice the slow requests, not the mean."
    ∷ entry_of "p99" "The time 99 out of 100 requests finished within — the near-worst case."
        "At scale the 1% is constant pain: one request in a hundred is a lot of unhappy users."
    ∷ entry_of "throughput" "How many requests are handled per second." ""
    ∷ entry_of "Redis"
        "A fast shared data store, used here to hold the counters every gateway instance reads."
        "The count has to live somewhere all servers can see, or each would enforce its own separate limit."
    ∷ entry_of "gateway" "The service traffic passes through on its way to the real application." ""
    ∷ entry_of "anonymous"
        "A caller with no API key, identified by IP address and given the smallest allowance." ""
    ∷ []

abbrev pub explanation : Explanation
explanation = record {
  what = template (
      "This sits in front of an API and decides, for every single request, whether to let it "
      ∷ "through or turn it away. It is what stops one customer — or one runaway script — from "
      ∷ "using up capacity everyone else is paying for." ∷ []);
  why = template (
      "The decision has to be correct even when many servers are answering at once. Two servers "
      ∷ "that each think you have requests left will together let through twice what they should, "
      ∷ "so the counting has to happen in one shared place and be atomic: no two requests can read "
      ∷ "the same count and both believe they were first." ∷ []);
  uses =
      "Send a burst of requests and watch which get allowed and which get turned away."
      ∷ "Each square is one real request in order — green allowed, red refused."
      ∷ "Switch tiers to see how a paying customer's limits differ from an anonymous one's." ∷ [];
  honest = template (
      "Everything here is a real request through the real limiter — nothing is simulated. The "
      ∷ "throughput figures were measured with the load generator and the gateway sharing one "
      ∷ "laptop, so they are a floor, not the ceiling." ∷ []);
  steps = explanation_steps;
  glossary = glossary;
}
