-- ===== src/Console/Record/History.antt =====
-- The dots and the log after any number of requests.
use ratelimit_gateway.Base.{
  ◌≡◌, sym, ap, ◌∙◌, List, [], ◌∷◌, ◌++◌, map, take, last_n, last_n-concat, take-map, take-take-suc,
}
use mathlib.Core.List.{append_assoc, append-nil, reverse, reverse-cons}
use ratelimit_gateway.Number.{Number}
use ratelimit_gateway.Console.Log.{
  Dot, Row, Node, row, children, remove_placeholder, append_dot, append_log, trim_dots, dot_of,
  row_of, max_dots, max_log_rows, cleared_log,
}
use ratelimit_gateway.Console.Log.Bounded.{
  trim_dots-last_n, children-prepend_row, remove_placeholder-rows,
}
use ratelimit_gateway.Console.Record.{Console, Timed, record_result, record_all}

module _ {ℓ} {N : Type ℓ} ⦃num : Number N⦄ where
  abbrev pub timed_row : Timed N → Row
  timed_row t = row_of t.time t.result

  abbrev pub timed_dot : Timed N → Dot
  timed_dot t = dot_of t.result

  record_result-dots :
      (past : List Dot) (t : Timed N) (c : Console N)
      → c.dots ≡ last_n max_dots past
      → (record_result t c).dots ≡ last_n max_dots (past ++ timed_dot t ∷ [])
  unfolding record_result append_dot
  record_result-dots past t c h =
      ap (λ ds. trim_dots (ds ++ timed_dot t ∷ [])) h
      ∙ trim_dots-last_n (last_n max_dots past ++ timed_dot t ∷ [])
      ∙ last_n-concat max_dots past (timed_dot t)

  record_all-dots :
      (past : List Dot) (ts : List (Timed N)) (c : Console N)
      → c.dots ≡ last_n max_dots past
      → (record_all ts c).dots ≡ last_n max_dots (past ++ map timed_dot ts)
  unfolding record_all
  record_all-dots past [] c h = h ∙ ap (last_n max_dots) (sym (append-nil past))
  record_all-dots past (t ∷ ts) c h =
      record_all-dots (past ++ timed_dot t ∷ []) ts (record_result t c)
        (record_result-dots past t c h)
      ∙ ap (last_n max_dots) (append_assoc past (timed_dot t ∷ []) (map timed_dot ts))

  record_result-log :
      (t : Timed N) (c : Console N)
      → children (record_result t c).log
        ≡ take max_log_rows (row (timed_row t) ∷ remove_placeholder (children c.log))
  unfolding record_result append_log
  record_result-log t c = children-prepend_row (timed_row t) c.log

  record_result-rows :
      (past : List Row) (t : Timed N) (c : Console N)
      → children c.log ≡ take max_log_rows (map row past)
      → children (record_result t c).log ≡ take max_log_rows (map row (timed_row t ∷ past))
  record_result-rows past t c h =
      let front : List Node → List Node = λ ns. take max_log_rows (row (timed_row t) ∷ ns) in
      record_result-log t c
      ∙ ap (λ ns. front (remove_placeholder ns)) (h ∙ take-map max_log_rows row past)
      ∙ ap front (remove_placeholder-rows (take max_log_rows past))
      ∙ ap front (sym (take-map max_log_rows row past))
      ∙ ap (◌∷◌ (row (timed_row t))) (take-take-suc 59 (map row past))

  record_all-rows :
      (past : List Row) (ts : List (Timed N)) (c : Console N)
      → children c.log ≡ take max_log_rows (map row past)
      → children (record_all ts c).log
        ≡ take max_log_rows (map row (reverse (map timed_row ts) ++ past))
  unfolding record_all
  record_all-rows past [] c h = h
  record_all-rows past (t ∷ ts) c h =
      record_all-rows (timed_row t ∷ past) ts (record_result t c) (record_result-rows past t c h)
      ∙ ap (λ rs. take max_log_rows (map row rs))
          (sym (append_assoc (reverse (map timed_row ts)) (timed_row t ∷ []) past)
            ∙ ap (λ rs. rs ++ past) (sym (reverse-cons (timed_row t) (map timed_row ts))))

  -- From an empty grid and an empty log, as the page starts and as the clear button leaves them,
  -- the dots are those of the last 200 results, oldest first, and the log shows the rows of the last
  -- 60, newest first, and nothing else.
  pub record_all-history :
      (t : Timed N) (ts : List (Timed N)) (c : Console N)
      → c.dots ≡ []
      → children c.log ≡ cleared_log
      → let all = t ∷ ts in
        ((record_all all c).dots ≡ last_n max_dots (map timed_dot all))
        × (children (record_all all c).log
            ≡ take max_log_rows (map row (reverse (map timed_row all))))
  unfolding record_all remove_placeholder
  record_all-history t ts c no_dots no_rows =
      let all = t ∷ ts in
      let first : children (record_result t c).log
          ≡ take max_log_rows (map row (timed_row t ∷ [])) =
        record_result-log t c
        ∙ ap (λ ns. take max_log_rows (row (timed_row t) ∷ remove_placeholder ns)) no_rows in
      (
        record_all-dots [] all c no_dots,
        record_all-rows (timed_row t ∷ []) ts (record_result t c) first
            ∙ ap (λ rs. take max_log_rows (map row rs))
                (sym (reverse-cons (timed_row t) (map timed_row ts))),
      )
