-- ===== src/Dashboard/Tiers/Selection.antt =====
-- The tier that the operator has selected, when the list of tiers is filled in again.
use ratelimit_gateway.Base.{
  ◌≡◌, ◌≢◌, refl, sym, ap, ◌∙◌, String, Bool, true, ◌||◌, inl, inr, some, List, [], ◌∷◌, map, any,
  str_eq, join_comma, Bool-cases, arith,
}
use text.Mathlib.TextEquality.{eq_iff}
use ratelimit_gateway.Number.{Number}
use ratelimit_gateway.Dashboard.Stats.{TierStat}
use ratelimit_gateway.Dashboard.Tiers.{
  TierOption, Select, TierOptions, fill, tier_option, names_key, refill, populate_tier_options,
}

options-fill : (os : List TierOption) → (fill os).options ≡ os
options-fill [] = refl
options-fill (o ∷ os) = refl

module _ {ℓ} {N : Type ℓ} ⦃num : Number N⦄ where
  -- The payload has a tier of this name.
  abbrev pub lists : List (TierStat N) → String → Bool
  lists tiers name = any (λ (t : TierStat N). str_eq t.name name) tiers

  any-map-tier_option :
      (tiers : List (TierStat N)) (v : String)
      → any (λ o. str_eq o.value v) (map tier_option tiers) ≡ lists tiers v
  any-map-tier_option [] v = refl
  any-map-tier_option (t ∷ ts) v = ap (◌||◌ (str_eq t.name v)) (any-map-tier_option ts v)

  refill-value :
      (tiers : List (TierStat N)) (select : Select)
      → select.value ≢ ""
      → lists tiers select.value ≡ true
      → (refill tiers select).value ≡ select.value
  refill-value tiers select chosen listed =
      let v = select.value in
      let found : any (λ o. str_eq o.value v) (fill (map tier_option tiers)).options ≡ true =
        ap (any (λ o. str_eq o.value v)) (options-fill (map tier_option tiers))
        ∙ any-map-tier_option tiers v
        ∙ listed in
      ground (arith, eq_iff v "")

  -- A tier that is selected stays selected whatever payload arrives, as long as the payload still
  -- has a tier of that name.
  pub populate_tier_options_keeps :
      (tiers : List (TierStat N)) (opts : TierOptions)
      → opts.select.value ≢ ""
      → lists tiers opts.select.value ≡ true
      → (populate_tier_options (some tiers) opts).select.value ≡ opts.select.value
  unfolding populate_tier_options
  populate_tier_options_keeps tiers opts chosen listed =
      elim (Bool-cases (str_eq (names_key tiers) opts.key)) [
        | inl same ↦ rw same refl
        | inr other ↦ rw other (refill-value tiers opts.select chosen listed)
      ]

  populate_tier_options_same :
      (tiers : List (TierStat N)) (opts : TierOptions)
      → names_key tiers ≡ opts.key
      → populate_tier_options (some tiers) opts ≡ opts
  unfolding populate_tier_options
  populate_tier_options_same tiers opts e = rw ((eq_iff (names_key tiers) opts.key).1 e) refl

  key-populate_tier_options :
      (tiers : List (TierStat N)) (opts : TierOptions)
      → (populate_tier_options (some tiers) opts).key ≡ names_key tiers
  unfolding populate_tier_options
  key-populate_tier_options tiers opts = elim (Bool-cases (str_eq (names_key tiers) opts.key)) [
    | inl same ↦ rw same (sym ((eq_iff (names_key tiers) opts.key).0 same))
    | inr other ↦ rw other refl
  ]

  -- The list is filled in by the tiers' names alone: once it is there, a payload with the same
  -- names changes nothing, also where the limits and windows that the labels show have changed.
  pub populate_tier_options_stale :
      (tiers later : List (TierStat N)) (opts : TierOptions)
      → map (λ (t : TierStat N). t.name) later ≡ map (λ (t : TierStat N). t.name) tiers
      → populate_tier_options (some later) (populate_tier_options (some tiers) opts)
        ≡ populate_tier_options (some tiers) opts
  populate_tier_options_stale tiers later opts names =
      populate_tier_options_same later (populate_tier_options (some tiers) opts)
        (ap join_comma names ∙ sym (key-populate_tier_options tiers opts))
