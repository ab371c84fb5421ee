-- ===== src/Explain/Panel/Views.antt =====
-- What the panel of explain.js shows after any events.
use ratelimit_gateway.Base.{◌≡◌, refl, String, Bool, Option, none, some, List, [], ◌∷◌}
use ratelimit_gateway.Explain.Glossary.{Explanation, Body, render_what}
use ratelimit_gateway.Explain.Panel.{
  Tab, what, how, words, Page, View, own, harmless, throwing, view_of, parse_hash, show_pop, Event,
  click_tab, click_fab, click_close, click_scrim, click_page, press_escape, pause_over, click_mark,
  type_filter, render, open_tab, open_view, open_found, boot_at, initial_page, boot, type_in,
  handle, run,
}

module _ (lower : String → String) (data_of : Explanation) where
  -- The body belongs to the tab; with no tab it is the first view.
  abbrev pub IsShown : Option Tab → Body → Type 0
  IsShown none body = body ≡ render_what data_of
  IsShown (some tab) body = (filter : String) × (body ≡ render lower data_of tab filter)

  abbrev pub IsConsistent : Page → Type 0
  IsConsistent page = (page.panel_on ≡ page.scrim_on) × IsShown page.tab_on page.body

  type_in-IsConsistent :
      (tab : Option Tab) (filter : String) (page : Page)
      → page.tab_on ≡ tab
      → IsConsistent page
      → IsConsistent (type_in lower data_of tab filter page)
  type_in-IsConsistent none filter page e h = h
  type_in-IsConsistent (some what) filter page e h = h
  type_in-IsConsistent (some how) filter page e h = h
  type_in-IsConsistent (some words) filter page e (same, h) = (same, rw e (filter, refl))

  handle-IsConsistent :
      (e : Event) (page : Page) → IsConsistent page → IsConsistent (handle lower data_of e page)
  unfolding handle open_tab show_pop
  handle-IsConsistent (click_tab tab) page (same, h) = (same, ("", refl))
  handle-IsConsistent click_fab page h = (refl, ("", refl))
  handle-IsConsistent click_close page (same, h) = (refl, h)
  handle-IsConsistent click_scrim page (same, h) = (refl, h)
  handle-IsConsistent click_page page h = h
  handle-IsConsistent press_escape page (same, h) = (refl, h)
  handle-IsConsistent pause_over page h = (refl, ("", refl))
  handle-IsConsistent (click_mark e) page h = h
  handle-IsConsistent (type_filter filter) page h =
      type_in-IsConsistent page.tab_on filter page refl h

  open_view-IsConsistent :
      (view : View) (page : Page)
      → page.panel_on ≡ page.scrim_on
      → page.body ≡ render_what data_of
      → IsConsistent (open_view lower data_of view page)
  unfolding open_tab
  open_view-IsConsistent (own tab) page same h = (refl, ("", refl))
  open_view-IsConsistent harmless page same h = (refl, h)
  open_view-IsConsistent throwing page same h = (same, h)

  open_found-IsConsistent :
      (view : Option View) (page : Page)
      → page.panel_on ≡ page.scrim_on
      → page.body ≡ render_what data_of
      → IsConsistent (open_found lower data_of view page)
  unfolding open_tab
  open_found-IsConsistent none page same h = (refl, ("", refl))
  open_found-IsConsistent (some view) page same h = open_view-IsConsistent view page same h

  boot_at-IsConsistent :
      (hash : Option (Option String)) (page : Page)
      → page.panel_on ≡ page.scrim_on
      → page.body ≡ render_what data_of
      → page.tab_on ≡ some what
      → IsConsistent (boot_at lower data_of hash page).0
  unfolding open_tab
  boot_at-IsConsistent none page same h first = (same, rw first ("", h))
  boot_at-IsConsistent (some none) page same h first = (refl, ("", refl))
  boot_at-IsConsistent (some (some name)) page same h first =
      open_found-IsConsistent (view_of name) page same h

  boot-IsConsistent :
      (hash : String) (private_mode : Bool) (seen : Option String)
      → IsConsistent (boot lower data_of hash (initial_page lower data_of private_mode seen)).0
  unfolding boot
  boot-IsConsistent hash private_mode seen =
      boot_at-IsConsistent (parse_hash hash)
        (record (initial_page lower data_of private_mode seen) { body = render_what data_of }) refl
        refl refl

  run-IsConsistent :
      (es : List Event) (page : Page) → IsConsistent page → IsConsistent (run lower data_of es page)
  unfolding run
  run-IsConsistent [] page h = h
  run-IsConsistent (e ∷ es) page h =
      run-IsConsistent es (handle lower data_of e page) (handle-IsConsistent e page h)

  -- After the script has run on a page, whatever the link and the storage, and after any events,
  -- the scrim is there exactly when the panel is, and the body is that of the highlighted tab, for
  -- some filter, or the first view when no tab is highlighted.
  pub run-boot-IsConsistent :
      (hash : String) (private_mode : Bool) (seen : Option String) (es : List Event)
      → IsConsistent (
          run lower data_of es
            (boot lower data_of hash (initial_page lower data_of private_mode seen)).0)
  run-boot-IsConsistent hash private_mode seen es =
      run-IsConsistent es (boot lower data_of hash (initial_page lower data_of private_mode seen)).0
        (boot-IsConsistent hash private_mode seen)
