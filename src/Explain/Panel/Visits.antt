-- ===== src/Explain/Panel/Visits.antt =====
-- When the panel of explain.js opens by itself.
use ratelimit_gateway.Base.{
  ◌≡◌, ap, ◌∙◌, String, true, false, Option, none, some, List, [], ◌∷◌, arith,
}
use ratelimit_gateway.Explain.Glossary.{Explanation, render_what}
use ratelimit_gateway.Explain.Panel.{
  Tab, what, how, words, Page, parse_hash, show_pop, Event, click_tab, click_fab, click_close,
  click_scrim, click_page, press_escape, pause_over, click_mark, type_filter, open_tab,
  initial_page, pause_starts, boot, boot_at, type_in, handle, run,
}

module _ (lower : String → String) (data_of : Explanation) where
  -- The storage works, and knows of a visit.
  abbrev pub IsKnown : Page → Type 0
  IsKnown page = (page.private_mode ≡ false) × (page.seen ≡ some "1")

  type_in-IsKnown :
      (tab : Option Tab) (filter : String) (page : Page)
      → IsKnown page
      → IsKnown (type_in lower data_of tab filter page)
  type_in-IsKnown none filter page h = h
  type_in-IsKnown (some what) filter page h = h
  type_in-IsKnown (some how) filter page h = h
  type_in-IsKnown (some words) filter page h = h

  handle-IsKnown : (e : Event) (page : Page) → IsKnown page → IsKnown (handle lower data_of e page)
  unfolding handle open_tab show_pop
  handle-IsKnown (click_tab tab) page h = h
  handle-IsKnown click_fab page h = ground arith
  handle-IsKnown click_close page h = h
  handle-IsKnown click_scrim page h = h
  handle-IsKnown click_page page h = h
  handle-IsKnown press_escape page h = h
  handle-IsKnown pause_over page h = ground arith
  handle-IsKnown (click_mark e) page h = h
  handle-IsKnown (type_filter filter) page h = type_in-IsKnown page.tab_on filter page h

  run-IsKnown : (es : List Event) (page : Page) → IsKnown page → IsKnown (run lower data_of es page)
  unfolding run
  run-IsKnown [] page h = h
  run-IsKnown (e ∷ es) page h =
      run-IsKnown es (handle lower data_of e page) (handle-IsKnown e page h)

  pause_over-IsKnown :
      (page : Page) → page.private_mode ≡ false → IsKnown (handle lower data_of pause_over page)
  unfolding handle open_tab
  pause_over-IsKnown page works = ground arith

  boot-no_hash :
      (hash : String) (page : Page)
      → parse_hash hash ≡ none
      → boot lower data_of hash page
        ≡ (record page { body = render_what data_of }, pause_starts lower data_of page)
  unfolding boot
  boot-no_hash hash page no_hash =
      ap (λ h. boot_at lower data_of h (record page { body = render_what data_of })) no_hash

  -- Without a link, a storage that works and knows nothing has the pause started; once it is over,
  -- and whatever happens after it, the storage is such that a later visit without a link starts no
  -- pause.
  pub boot-first :
      (hash : String) (es : List Event)
      → parse_hash hash ≡ none
      → let (page, started) = boot lower data_of hash (initial_page lower data_of false none) in
        let left = run lower data_of (pause_over ∷ es) page in
        (started ≡ true)
        × ((boot lower data_of hash (initial_page lower data_of false left.seen)).1 ≡ false)
  unfolding run
  boot-first hash es no_hash =
      let first = initial_page lower data_of false none in
      let page = (boot lower data_of hash first).0 in
      let known =
        run-IsKnown es (handle lower data_of pause_over page) (
          pause_over-IsKnown page (ap (λ b. b.0.private_mode) (boot-no_hash hash first no_hash))) in
      let again =
        initial_page lower data_of false (run lower data_of (pause_over ∷ es) page).seen in
      (
        ap (λ b. b.1) (boot-no_hash hash first no_hash),
        ap (λ b. b.1) (boot-no_hash hash again no_hash)
            ∙ ap (λ s. pause_starts lower data_of (initial_page lower data_of false s)) known.1,
      )
