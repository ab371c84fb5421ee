-- ===== src/Console/Config.antt =====
-- `loadConfig` and `currentKey` of the console's app.js.
use ratelimit_gateway.Base.{
  String, Bool, true, Option, none, some, [], ◌∷◌, if◌then◌else◌, str_eq, template, trim, not, ◌≡◌,
  arith,
}

-- `state.config`. The server's answer holds all four fields, so the spread takes all of them.
pub record Config : Type 0 where
  pub base_path : String
  pub probe_path : String
  pub dashboard_port : String
  pub algorithm : String

abbrev pub default_config : Config
default_config = record {
  base_path = "/__gateway/";
  probe_path = "/get";
  dashboard_port = "";
  algorithm = "";
}

-- The parts of the page that `loadConfig` writes, and the page's own address.
pub record ConfigView : Type 0 where
  pub probe_label : String
  pub algorithm : String
  pub link_href : String
  pub link_hidden : Bool

pub record Location : Type 0 where
  pub protocol : String
  pub hostname : String

abbrev pub show_config : Location → Config → ConfigView → ConfigView
show_config location config view =
    let labelled = record view {
      probe_label = template ("→ " ∷ config.probe_path ∷ []);
      algorithm = if str_eq config.algorithm "" then "—" else config.algorithm;
    } in
    if str_eq config.dashboard_port ""
    then record labelled { link_hidden = true }
    else record labelled {
      link_href =
          template
            (location.protocol ∷ "//" ∷ location.hostname ∷ ":" ∷ config.dashboard_port ∷ "/" ∷ []);
    }

-- `none` stands for a request that fails, or whose status or body is refused.
unfoldable pub load_config : Location → Option Config → Config → ConfigView → Config × ConfigView
load_config location none config view = (config, show_config location config view)
load_config location (some answer) config view = (answer, show_config location answer view)

-- The choice of the select, and the text of the custom field.
unfoldable pub current_key : String → String → String
current_key choice custom = if str_eq choice "__custom" then trim custom else choice

-- The `X-API-Key` header of a request, if it is sent.
unfoldable pub api_key_header : String → String → Option String
unfolding current_key
api_key_header choice custom =
    let key = current_key choice custom in if str_eq key "" then none else some key

-- The listener of the select: whether the custom field is hidden.
abbrev pub custom_field_hidden : String → Bool
custom_field_hidden choice = not (str_eq choice "__custom")

-- What stands in the custom field is part of the requests only while the field is shown.
pub api_key_header-hidden :
    (choice first second : String)
    → custom_field_hidden choice ≡ true
    → api_key_header choice first ≡ api_key_header choice second
unfolding api_key_header current_key
api_key_header-hidden choice first second hidden = ground arith
