-- ===== src/Server/Pipeline/Overlap/Order.antt =====
-- Requests that overlap against the same requests one after the other.
use mathlib.Core.Path.{subst}
use ratelimit_gateway.Base.{
  ℕ, ◌≡◌, refl, ap, sym, ◌∙◌, String, true, Option, some, List, [], ◌∷◌, ◌++◌, if◌then◌else◌, All,
  All-imp, All-append, ◌==◌, arith,
}
use ratelimit_gateway.Http.{Response}
use ratelimit_gateway.Number.{Number}
use ratelimit_gateway.Limiter.Store.{SortedSets}
use ratelimit_gateway.Limiter.SlidingWindow as Script
use ratelimit_gateway.Limiter.{Reply}
use ratelimit_gateway.Limiter.Redis as Redis
use ratelimit_gateway.Limiter.Redis.{RedisLimiter, Args, Value, redis_key, window_ms}
use ratelimit_gateway.Limiter.Redis.Allowed.{IsSliding, sliding_limiter, allow-sliding_window}
use ratelimit_gateway.Gateway.Breaker.{closed}
use ratelimit_gateway.Gateway.Middleware.{Decision}
use ratelimit_gateway.Gateway.Tenant.{Resolver, quota, resolve}
use ratelimit_gateway.Server.Pipeline.{Running, Arrival, verdict_of, handle_proxied, serve_all}
use ratelimit_gateway.Server.Pipeline.Steps.{allow-closed, handle_proxied-closed}
use ratelimit_gateway.Server.Pipeline.Callers.{member_of}
use ratelimit_gateway.Server.Pipeline.Overlap.{
  Flight, waiting, decided, Busy, after_allow, finish, arrived, stopped, answered_by_redis,
  reported, arrive, stop, ask, report, Reach, here, next,
}
use ratelimit_gateway.Server.Pipeline.Overlap.Parts.{
  IsIn, IsIn-append, All-parts, IsDecidable, with_statuses, finish-closed, serve_all-snoc,
}

module _ {κ ℓ} {N : Type κ} ⦃num : Number N⦄ {S : Type ℓ}
    (run : String → Args N → S → Option (List Value) × S) (resolver : Resolver) (prefix : String)
    (start : Running S) where
  -- Requests one after the other.
  abbrev pub sequence : List Arrival → List Response × Running S
  sequence arrivals = serve_all run resolver (sliding_limiter prefix) arrivals start

  abbrev pub outcomes : List Arrival → List (Arrival × ℕ)
  outcomes arrivals = with_statuses arrivals (sequence arrivals).0

module _ {κ ℓ} {N : Type κ} ⦃num : Number N⦄ {S : Type ℓ} ⦃sets : SortedSets S⦄
    (run : String → Args N → S → Option (List Value) × S) (runs : IsSliding run)
    (resolver : Resolver) (prefix : String) (start : Running S)
    (is_closed : start.rl.breaker.state ≡ closed) where
  -- A request under way has a decision, which gives it the status that it has in the sequence.
  abbrev IsOrdered : List Arrival → Flight → Type 0
  IsOrdered asked (waiting a) = Unit
  IsOrdered asked (decided a verdict) =
      (d : Decision) × (verdict ≡ some d)
      × IsIn (a, if d.allowed then a.upstream.status else 429)
          (outcomes run resolver prefix start asked)

  record IsSound (b : Busy S) : Type ℓ where
    pub closed_now : b.running.rl.breaker.state ≡ closed
    pub closed_then : (sequence run resolver prefix start b.asked).1.rl.breaker.state ≡ closed
    pub stored : b.running.store ≡ (sequence run resolver prefix start b.asked).1.store
    pub under_way : All (IsOrdered b.asked) b.flights
    pub answered :
        All (λ x. IsIn (x.0, x.1.status) (outcomes run resolver prefix start b.asked)) b.answers

  start-IsSound : IsSound (record { running = start; flights = []; asked = []; answers = [] })
  unfolding serve_all
  start-IsSound = record {
    closed_now = is_closed;
    closed_then = is_closed;
    stored = refl;
    under_way = tt;
    answered = tt;
  }

  arrive-IsSound :
      (b : Busy S) (a : Arrival)
      → IsSound b
      → IsSound (arrived run resolver (sliding_limiter prefix) a b)
  unfolding after_allow
  arrive-IsSound b a h = record {
    closed_now =
        ap (λ r. r.1.state) (allow-closed a.started b.running.rl.breaker h.closed_now)
        ∙ h.closed_now;
    closed_then = h.closed_then;
    stored = h.stored;
    under_way = (tt, h.under_way);
    answered = h.answered;
  }

  report-IsSound :
      (b : Busy S) (before : List Flight) (a : Arrival) (verdict : Option Decision)
      (after : List Flight)
      → b.flights ≡ before ++ decided a verdict ∷ after
      → IsSound b
      → IsSound (reported run resolver (sliding_limiter prefix) before a verdict after b)
  unfolding reported
  report-IsSound b before a verdict after split h =
      let (front, ((d, same, place), back)) =
        All-parts (IsOrdered b.asked) before (decided a verdict ∷ after)
          (subst (All (IsOrdered b.asked)) split h.under_way) in
      let (status, still_closed) = finish-closed resolver a d b.running.rl h.closed_now in
      record {
        closed_now =
            ap (λ v. (finish resolver true a v b.running.rl).1.breaker.state) same ∙ still_closed;
        closed_then = h.closed_then;
        stored = h.stored;
        under_way = All-append (IsOrdered b.asked) before after front back;
        answered = (
          subst (λ n. IsIn (a, n) (outcomes run resolver prefix start b.asked))
              (sym (ap (λ v. (finish resolver true a v b.running.rl).0.status) same ∙ status))
              place,
          h.answered,
        );
      }

  abbrev script : Arrival → S → Reply × S
  script a s =
      let t = resolve resolver a.request in
      Script.sliding_window (redis_key (sliding_limiter prefix) t.id) a.called
        (window_ms (quota t.tier)) t.tier.limit (member_of a.member) s

  decided_by_script :
      (a : Arrival) (s : S)
      → IsDecidable resolver a
      → let t = resolve resolver a.request in
        let (outcome, after) =
          Redis.allow run (sliding_limiter prefix) a.called a.member t.id (quota t.tier) s in
        (d : Decision) × (verdict_of outcome ≡ some d)
        × (d.allowed ≡ ((script a s).0.allowed == 1))
        × (after ≡ (script a s).1)
  decided_by_script a s (fresh, sized) =
      let t = resolve resolver a.request in
      rw
        (
          fresh,
          allow-sliding_window run runs prefix t.id (quota t.tier) sized.0 sized.1 a.called
              (member_of a.member) s,
        )
        (_, refl, refl, refl)

  IsOrdered-later :
      (asked : List Arrival) (a : Arrival) (n : ℕ) (f : Flight)
      → outcomes run resolver prefix start (asked ++ a ∷ [])
        ≡ outcomes run resolver prefix start asked ++ (a, n) ∷ []
      → IsOrdered asked f
      → IsOrdered (asked ++ a ∷ []) f
  IsOrdered-later asked a n (waiting c) e h = tt
  IsOrdered-later asked a n (decided c verdict) e (d, same, place) = (
    d,
    same,
    subst (IsIn (c, if d.allowed then c.upstream.status else 429)) (sym e)
        (IsIn-append _ (outcomes run resolver prefix start asked) ((a, n) ∷ []) place),
  )

  ask-IsSound :
      (b : Busy S) (before : List Flight) (a : Arrival) (after : List Flight)
      → b.flights ≡ before ++ waiting a ∷ after
      → IsDecidable resolver a
      → IsSound b
      → IsSound (answered_by_redis run resolver (sliding_limiter prefix) before a after b)
  unfolding answered_by_redis
  ask-IsSound b before a after split decidable h =
      let t = resolve resolver a.request in
      let earlier = (sequence run resolver prefix start b.asked).1 in
      let asked = b.asked ++ a ∷ [] in
      let (response, later) = handle_proxied run resolver (sliding_limiter prefix) a earlier in
      let (statuses, final) =
        serve_all-snoc run resolver (sliding_limiter prefix) b.asked a start in
      let (status, stored, still_closed) =
        handle_proxied-closed run runs resolver prefix t decidable.1.0 decidable.1.1 a
          (member_of a.member) earlier refl decidable.0 h.closed_then in
      let (d, same, told, left) = decided_by_script a b.running.store decidable in
      let (front, (unasked, back)) =
        All-parts (IsOrdered b.asked) before (waiting a ∷ after)
          (subst (All (IsOrdered b.asked)) split h.under_way) in
      let answer : response.status ≡ (if d.allowed then a.upstream.status else 429) =
        status
        ∙ ap (λ s. if (script a s).0.allowed == 1 then a.upstream.status else 429) (sym h.stored)
        ∙ ap (λ x. if x then a.upstream.status else 429) (sym told) in
      record {
        closed_now = h.closed_now;
        closed_then = ap (λ g. g.rl.breaker.state) final ∙ still_closed;
        stored =
            left ∙ ap (λ s. (script a s).1) h.stored ∙ sym stored ∙ ap (λ g. g.store) (sym final);
        under_way =
            All-append (IsOrdered asked) before (decided a _ ∷ after)
              (All-imp (IsOrdered b.asked) (IsOrdered asked) before
                (λ f. IsOrdered-later b.asked a response.status f statuses) front)
              (
                (
                  d,
                  same,
                  subst (λ n. IsIn (a, n) (outcomes run resolver prefix start asked)) answer
                      (outcomes run resolver prefix start b.asked, ([], statuses)),
                ),
                All-imp (IsOrdered b.asked) (IsOrdered asked) after
                    (λ f. IsOrdered-later b.asked a response.status f statuses) back,
              );
        answered =
            All-imp (λ x. IsIn (x.0, x.1.status) (outcomes run resolver prefix start b.asked))
              (λ x. IsIn (x.0, x.1.status) (outcomes run resolver prefix start asked)) b.answers
              (λ x place. subst (IsIn (x.0, x.1.status)) (sym statuses) (
                IsIn-append _ (outcomes run resolver prefix start b.asked)
                  ((a, response.status) ∷ []) place))
              h.answered;
      }

  Reach-IsSound :
      (b : Busy S)
      → Reach run resolver (sliding_limiter prefix) start b
      → All (IsDecidable resolver) b.asked
      → IsSound b
  unfolding stopped answered_by_redis reported
  Reach-IsSound _ here decidable = start-IsSound
  Reach-IsSound _ (next {b = b} before (arrive a passed)) decidable =
      arrive-IsSound b a (Reach-IsSound b before decidable)
  Reach-IsSound _ (next {b = b} before (stop a refused)) decidable =
      let h = Reach-IsSound b before decidable in
      let passed = ap (λ r. r.0) (allow-closed a.started b.running.rl.breaker h.closed_now) in
      absurd (ground arith)
  Reach-IsSound _ (next {b = b} reached (ask before a after split)) decidable =
      let (earlier, (here_too, none_left)) =
        All-parts (IsDecidable resolver) b.asked (a ∷ []) decidable in
      ask-IsSound b before a after split here_too (Reach-IsSound b reached earlier)
  Reach-IsSound _ (next {b = b} reached (report before a verdict after split)) decidable =
      report-IsSound b before a verdict after split (Reach-IsSound b reached decidable)

  -- From a state with the breaker closed and no requests under way, on a server that runs the
  -- sliding window, whatever requests arrive and however they overlap, as long as the limiter can
  -- decide those that Redis has answered: each request that the gateway has answered has the status
  -- that it has when the same requests come one after the other, in the order in which Redis has
  -- answered them; the store is that of this sequence, and the breaker is closed.
  pub Reach-ordered :
      (b : Busy S)
      → Reach run resolver (sliding_limiter prefix) start b
      → All (IsDecidable resolver) b.asked
      → All (λ x. IsIn (x.0, x.1.status) (outcomes run resolver prefix start b.asked)) b.answers
        × (b.running.store ≡ (sequence run resolver prefix start b.asked).1.store)
        × (b.running.rl.breaker.state ≡ closed)
  Reach-ordered b reached decidable =
      let h = Reach-IsSound b reached decidable in (h.answered, h.stored, h.closed_now)
