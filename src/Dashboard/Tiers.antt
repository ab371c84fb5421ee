-- ===== src/Dashboard/Tiers.antt =====
-- The tier cards and the simulator's list of tiers: `renderTiers` and `populateTierOptions` of
-- app.js. A card is its interpolated parts; the fixed markup around them is left out.
pub mod Selection
use ratelimit_gateway.Base.{
  String, Option, none, some, List, [], ◌∷◌, map, any, if◌then◌else◌, str_eq, template, join_comma,
}
use ratelimit_gateway.Number.{Number}
use ratelimit_gateway.Dashboard.Stats.{TierStat}
use ratelimit_gateway.Dashboard.Format.{format_count, escape_html}

pub record TierCard : Type 0 where
  pub name : String
  pub quota : String
  pub allowed_width : String
  pub throttled_width : String
  pub allowed : String
  pub throttled : String

pub data TierList : Type 0 where
  no_tiers : TierList
  cards : List TierCard → TierList

-- An `<option>` of the select: its value and its label.
pub record TierOption : Type 0 where
  pub value : String
  pub label : String

-- A `<select>`: its options and the value that it reads.
pub record Select : Type 0 where
  pub options : List TierOption
  pub value : String

-- New inner HTML: the browser selects the first option.
abbrev pub fill : List TierOption → Select
fill [] = record { options = []; value = "" }
fill (o ∷ os) = record { options = o ∷ os; value = o.value }

-- `select.value = v`: an option of that value, or none at all.
abbrev pub choose : String → Select → Select
choose v select = record select {
  value = if any (λ o. str_eq o.value v) select.options then v else "";
}

-- The select, and `tierOptionsKey`.
pub record TierOptions : Type 0 where
  pub key : String
  pub select : Select

module _ {ℓ} {N : Type ℓ} ⦃num : Number N⦄ where
  open num use {nat, add, mul, div, lt, text}

  -- The share of a part in a total, in per cent.
  abbrev pub percent : N → N → N
  percent part total = if lt (nat 0) total then mul (div part total) (nat 100) else nat 0

  unfoldable pub tier_card : TierStat N → TierCard
  tier_card tier =
      let total = add tier.allowed tier.throttled in
      record {
        name = escape_html tier.name;
        quota =
            template (
              text tier.limit ∷ "/" ∷ escape_html tier.window ∷ " · burst " ∷ text tier.burst ∷ []);
        allowed_width = template (text (percent tier.allowed total) ∷ "%" ∷ []);
        throttled_width = template (text (percent tier.throttled total) ∷ "%" ∷ []);
        allowed = template (format_count tier.allowed ∷ " allowed" ∷ []);
        throttled = template (format_count tier.throttled ∷ " throttled" ∷ []);
      }

  unfoldable pub render_tiers : Option (List (TierStat N)) → TierList
  render_tiers none = no_tiers
  render_tiers (some []) = no_tiers
  render_tiers (some (tier ∷ tiers)) = cards (map tier_card (tier ∷ tiers))

  -- The browser decodes the escaped text of an attribute and of a label again, so the option holds
  -- the texts as they are.
  abbrev pub tier_option : TierStat N → TierOption
  tier_option t = record {
    value = t.name;
    label = template (t.name ∷ " — " ∷ text t.limit ∷ "/" ∷ t.window ∷ []);
  }

  abbrev pub names_key : List (TierStat N) → String
  names_key tiers = join_comma (map (λ (t : TierStat N). t.name) tiers)

  -- The options anew, and the value that was selected before.
  abbrev pub refill : List (TierStat N) → Select → Select
  refill tiers select =
      let filled = fill (map tier_option tiers) in
      if str_eq select.value "" then filled else choose select.value filled

  unfoldable pub populate_tier_options : Option (List (TierStat N)) → TierOptions → TierOptions
  populate_tier_options none opts = opts
  populate_tier_options (some tiers) opts =
      if str_eq (names_key tiers) opts.key
      then opts
      else record { key = names_key tiers; select = refill tiers opts.select }
