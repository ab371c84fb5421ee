-- ===== src/Server/Proxy.antt =====
-- What the proxy answers and what `Observe` reports: internal/proxy/proxy.go.
use ratelimit_gateway.Base.{
  ℕ, ◌-◌, ◌≤◌, ◌<◌, ◌≡◌, refl, ap, ◌∙◌, String, Bool, true, false, ◌&&◌, not, Option, none, some,
  List, [], ◌∷◌, ◌++◌, map, if◌then◌else◌, ◌==◌, leb, decimal, All, arith,
}

-- A call of the `http.ResponseWriter`.
pub data Event : Type 0 where
  write_header : ℕ → Event
  write : String → Event

-- The writer of net/http: the final status that is sent. A status of 1xx but 101 is sent on its own,
-- a second final one is not, and a write without one sends 200.
abbrev pub is_informational : ℕ → Bool
is_informational code = leb 100 code && leb code 199 && not (code == 101)

abbrev pub send_header : ℕ → Option ℕ → Option ℕ
send_header code (some status) = some status
send_header code none = if is_informational code then none else some code

abbrev pub send_body : Option ℕ → Option ℕ
send_body (some status) = some status
send_body none = some 200

-- `statusRecorder`, over that writer; a status of 0 is none.
pub record StatusRecorder : Type 0 where
  pub status : ℕ
  pub sent : Option ℕ

unfoldable pub record_event : Event → StatusRecorder → StatusRecorder
record_event (write_header code) r = record { status = code; sent = send_header code r.sent }
record_event (write body) r = record {
  status = if r.status == 0 then 200 else r.status;
  sent = send_body r.sent;
}

unfoldable pub record_events : List Event → StatusRecorder → StatusRecorder
record_events [] r = r
record_events (e ∷ es) r = record_events es (record_event e r)

-- What `Observe` reports of a handler that makes these calls, with its start and its end, and the
-- status that the client gets; net/http sends 200 for a handler that sends none.
abbrev pub status_or_ok : Option ℕ → ℕ
status_or_ok none = 200
status_or_ok (some status) = status

unfoldable pub observe : ℕ → ℕ → List Event → (String × ℕ) × ℕ
observe started ended events =
    let r = record_events events (record { status = 0; sent = none }) in
    let status = if r.status == 0 then 200 else r.status in
    ((decimal status, ended - started), status_or_ok r.sent)

-- What comes of the request to the upstream, with no change of protocols: the informational answers,
-- then the final one, or the failure of the request, and whether the client has cancelled it.
pub data Upstream : Type 0 where
  responded : List ℕ → ℕ → List String → Upstream
  failed : List ℕ → Bool → Upstream

-- `ErrorHandler`.
abbrev pub handle_error : Bool → List Event
handle_error true = []
handle_error false = write_header 502 ∷ write "upstream unavailable\n" ∷ []

-- The calls that `httputil.ReverseProxy` makes: it passes on an informational answer when it comes,
-- and a response that it reads to its end.
abbrev pub proxy_events : Upstream → List Event
proxy_events (responded informational status body) =
    map write_header informational ++ write_header status ∷ map write body
proxy_events (failed informational cancelled) =
    map write_header informational ++ handle_error cancelled

abbrev pub last_or : ℕ → List ℕ → ℕ
last_or n [] = n
last_or n (c ∷ cs) = last_or c cs

-- The status that the client gets, and the one that is reported.
abbrev pub sent_status : Upstream → ℕ
sent_status (responded informational status body) = status
sent_status (failed informational true) = 200
sent_status (failed informational false) = 502

abbrev pub reported_status : Upstream → ℕ
reported_status (responded informational status body) = status
reported_status (failed informational true) = last_or 200 informational
reported_status (failed informational false) = 502

abbrev pub IsHttp : Upstream → Type 0
IsHttp (responded informational status body) =
    All (λ code. is_informational code ≡ true) informational × (200 ≤ status)
IsHttp (failed informational cancelled) = All (λ code. is_informational code ≡ true) informational

record_events-informational :
    (codes : List ℕ) (rest : List Event) (n : ℕ)
    → All (λ code. is_informational code ≡ true) codes
    → record_events (map write_header codes ++ rest) (record { status = n; sent = none })
      ≡ record_events rest (record { status = last_or n codes; sent = none })
unfolding record_events record_event
record_events-informational [] rest n all = refl
record_events-informational (code ∷ codes) rest n (h, all) =
    let step : record_event (write_header code) (record { status = n; sent = none })
        ≡ record { status = code; sent = none } =
      rw h refl in
    ap (record_events (map write_header codes ++ rest)) step
    ∙ record_events-informational codes rest code all

last_or-informational :
    (codes : List ℕ) (n : ℕ)
    → 0 < n
    → All (λ code. is_informational code ≡ true) codes
    → 0 < last_or n codes
last_or-informational [] n positive all = positive
last_or-informational (code ∷ codes) n positive (h, all) =
    last_or-informational codes code (ground arith) all

-- A status of none is reported as 200.
reported_last :
    (codes : List ℕ)
    → All (λ code. is_informational code ≡ true) codes
    → (if last_or 0 codes == 0 then 200 else last_or 0 codes) ≡ last_or 200 codes
reported_last [] all = refl
reported_last (code ∷ codes) (h, all) =
    let positive = last_or-informational codes code (ground arith) all in
    let some_status : (last_or code codes == 0) ≡ false = ground arith in rw some_status refl

record_events-body :
    (body : List String) (status : ℕ)
    → 0 < status
    → let r : StatusRecorder = record { status = status; sent = some status } in
      record_events (map write body) r ≡ r
unfolding record_events record_event
record_events-body [] status positive = refl
record_events-body (text ∷ body) status positive =
    let some_status : (status == 0) ≡ false = ground arith in
    let r : StatusRecorder = record { status = status; sent = some status } in
    let step : record_event (write text) r ≡ r = rw some_status refl in
    ap (record_events (map write body)) step ∙ record_events-body body status positive

record_events-final :
    (body : List String) (status n : ℕ)
    → is_informational status ≡ false
    → 0 < status
    → record_events (write_header status ∷ map write body) (record { status = n; sent = none })
      ≡ record { status = status; sent = some status }
unfolding record_events record_event
record_events-final body status n final positive =
    let step : record_event (write_header status) (record { status = n; sent = none })
        ≡ record { status = status; sent = some status } =
      rw final refl in
    ap (record_events (map write body)) step ∙ record_events-body body status positive

-- The status that the client gets is the upstream's, whatever informational answers came before it,
-- or 502 if the upstream's request fails, or 200 if it fails since the client has cancelled it, and
-- the status that `Observe` reports is the same one, with the time that has gone by; but of a
-- cancelled request it reports the last informational answer, if the upstream has sent one.
pub observe-proxy_events :
    (started ended : ℕ) (upstream : Upstream)
    → IsHttp upstream
    → let ((label, elapsed), sent) = observe started ended (proxy_events upstream) in
      (label ≡ decimal (reported_status upstream))
      × (sent ≡ sent_status upstream)
      × (elapsed ≡ ended - started)
unfolding observe record_events record_event
observe-proxy_events started ended (responded informational status body) (codes, final) =
    let skipped =
      record_events-informational informational (write_header status ∷ map write body) 0 codes in
    let some_status : (status == 0) ≡ false = ground arith in
    let last : is_informational status ≡ false = ground arith in
    rw
      (
        skipped ∙ record_events-final body status (last_or 0 informational) last (omega arith),
        some_status,
      )
      (refl, refl, refl)
observe-proxy_events started ended (failed informational true) codes =
    rw (record_events-informational informational (handle_error true) 0 codes)
      (ap decimal (reported_last informational codes), refl, refl)
observe-proxy_events started ended (failed informational false) codes =
    rw (record_events-informational informational (handle_error false) 0 codes) (refl, refl, refl)
