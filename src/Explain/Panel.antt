-- ===== src/Explain/Panel.antt =====
-- The panel and the popover of explain.js: `open`, `close`, `showPop`, `hidePop`, `boot` and the
-- listeners.
pub mod Views
pub mod Visits
use Prim.Native.Char.{Char}
use Prim.Native.String
use ratelimit_gateway.Base.{
  ℕ, String, Bool, true, false, not, ◌&&◌, ◌||◌, Option, none, some, List, [], ◌∷◌, if◌then◌else◌,
  str_eq, any,
}
use ratelimit_gateway.Explain.Words.{is_word}
use ratelimit_gateway.Explain.Glossary.{
  Explanation, Body, blank, render_what, render_how, render_words, Entry, TermView, term_view,
}

pub data Tab : Type 0 where
  what how words : Tab

-- What the script keeps on the page: the class `on` of the panel, of the scrim and of a tab, the
-- body, the popover, and what `localStorage` knows under its key. In private mode the storage
-- throws.
pub record Page : Type 0 where
  pub panel_on : Bool
  pub scrim_on : Bool
  pub tab_on : Option Tab
  pub body : Body
  pub pop : Option TermView
  pub private_mode : Bool
  pub seen : Option String

-- What `views` has under a name: a view of its own, or what every object inherits, which can be
-- called without effect or throws.
pub data View : Type 0 where
  own : Tab → View
  harmless throwing : View

abbrev pub harmless_names : List String
harmless_names =
    "constructor" ∷ "hasOwnProperty" ∷ "isPrototypeOf" ∷ "propertyIsEnumerable" ∷ "toLocaleString"
    ∷ "toString" ∷ "valueOf" ∷ "__lookupGetter__" ∷ "__lookupSetter__" ∷ []

abbrev pub throwing_names : List String
throwing_names = "__proto__" ∷ "__defineGetter__" ∷ "__defineSetter__" ∷ []

-- `views[name]`.
abbrev pub view_of : String → Option View
view_of name =
    if str_eq name "what"
    then some (own what)
    else if str_eq name "how"
    then some (own how)
    else if str_eq name "words"
    then some (own words)
    else if any (str_eq name) harmless_names
    then some harmless
    else if any (str_eq name) throwing_names
    then some throwing
    else none

-- `/^#explain(?:=(\w+))?$/.exec(location.hash)`, with what the group matches.
abbrev pub all_word : String → Bool
all_word String.[] = true
all_word (String.◌∷◌ c s) = is_word c && all_word s

abbrev pub hash_name : String → Option (Option String)
hash_name String.[] = some none
hash_name (String.◌∷◌ c s) =
    if str_eq (String.◌∷◌ c "") "=" && all_word s && not (str_eq s "") then some (some s) else none

abbrev pub strip : String → String → Option String
strip String.[] s = some s
strip (String.◌∷◌ p ps) String.[] = none
strip (String.◌∷◌ p ps) (String.◌∷◌ c s) =
    let rest = strip ps s in if str_eq (String.◌∷◌ p "") (String.◌∷◌ c "") then rest else none

abbrev pub parse_hash : String → Option (Option String)
parse_hash hash = elim (strip "#explain" hash) [ none ↦ none | some rest ↦ hash_name rest ]

abbrev pub hide_pop : Page → Page
hide_pop page = record page { pop = none }

unfoldable pub show_pop : String × Entry → Page → Page
show_pop e page = record (hide_pop page) { pop = some (term_view e) }

abbrev pub close : Page → Page
close page = record page { panel_on = false; scrim_on = false }

-- The end of `open`: the panel is shown, and the storage told.
abbrev pub show_panel : Page → Page
show_panel page = record page {
  panel_on = true;
  scrim_on = true;
  seen = if page.private_mode then page.seen else some "1";
}

-- What the user does, and the end of the pause after the first visit. A click anywhere also
-- reaches the document's listener.
pub data Event : Type 0 where
  click_tab : Tab → Event
  click_fab click_close click_scrim click_page press_escape pause_over : Event
  click_mark : String × Entry → Event
  type_filter : String → Event

module _ (lower : String → String) (data_of : Explanation) where
  abbrev pub render : Tab → String → Body
  render what filter = render_what data_of
  render how filter = render_how data_of
  render words filter = render_words lower filter data_of

  -- `views[tab]()` with the class of the tabs.
  abbrev pub turn_to : Tab → Page → Page
  turn_to tab page = record page { tab_on = some tab; body = render tab "" }

  unfoldable pub open_tab : Tab → Page → Page
  open_tab tab page = show_panel (turn_to tab page)

  -- `open(name)` for a name that `views` has; an inherited one turns all tabs off.
  abbrev pub open_view : View → Page → Page
  open_view (own tab) page = open_tab tab page
  open_view harmless page = show_panel (record page { tab_on = none })
  open_view throwing page = record page { tab_on = none }

  abbrev pub open_found : Option View → Page → Page
  open_found none page = open_tab what page
  open_found (some view) page = open_view view page

  abbrev pub open_hash : Option String → Page → Page
  open_hash none page = open_tab what page
  open_hash (some name) page = open_found (view_of name) page

  -- The page before the script has run, with what the browser knows.
  abbrev pub initial_page : Bool → Option String → Page
  initial_page private_mode seen = record {
    panel_on = false;
    scrim_on = false;
    tab_on = some what;
    body = blank;
    pop = none;
    private_mode = private_mode;
    seen = seen;
  }

  -- What `localStorage.getItem` returns, or `null` when it throws, for truth: a pause starts when
  -- nothing is known.
  abbrev pub pause_starts : Page → Bool
  pause_starts page =
      page.private_mode || elim page.seen [ none ↦ true | some value ↦ str_eq value "" ]

  abbrev pub boot_at : Option (Option String) → Page → Page × Bool
  boot_at none page = (page, pause_starts page)
  boot_at (some name) page = (open_hash name page, false)

  -- `boot`, with whether the pause has been started.
  unfoldable pub boot : String → Page → Page × Bool
  boot hash page = boot_at (parse_hash hash) (record page { body = render_what data_of })

  -- The input field of the filter is there only in the view of the words.
  abbrev pub type_in : Option Tab → String → Page → Page
  type_in (some words) filter page = record page { body = render_words lower filter data_of }
  type_in (some what) filter page = page
  type_in (some how) filter page = page
  type_in none filter page = page

  unfoldable pub handle : Event → Page → Page
  handle (click_tab tab) page = hide_pop (turn_to tab page)
  handle click_fab page = hide_pop (open_tab what page)
  handle click_close page = hide_pop (close page)
  handle click_scrim page = hide_pop (close page)
  handle click_page page = hide_pop page
  handle press_escape page = hide_pop (close page)
  handle pause_over page = open_tab what page
  handle (click_mark e) page = show_pop e page
  handle (type_filter filter) page = type_in page.tab_on filter page

  unfoldable pub run : List Event → Page → Page
  run [] page = page
  run (e ∷ es) page = run es (handle e page)
