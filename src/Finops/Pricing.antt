-- ===== src/Finops/Pricing.antt =====
-- go/internal/finops/finops.go: the price of a call.
use aeon_agent_harness.Prelude.{
  String, Option, none, some, List, [], ◌∷◌, if◌then◌else◌, ◌==◌, string_comparable,
}
use aeon_agent_harness.Prelude.Dict.{lookup, insert}
use aeon_agent_harness.Prelude.Int.{ℤ}
use aeon_agent_harness.Finops.{Dollars}

abbrev pub key : String → String → String
key provider model = Prim.Native.String.◌++◌ provider (Prim.Native.String.◌++◌ "/" model)

module _ (fl : Dollars) where
  pub record Rate : Type 0 where
    pub provider : String
    pub model : String
    pub cost_model : String
    pub input_per_million_usd : fl.Float
    pub output_per_million_usd : fl.Float

  abbrev pub PricingTable : Type 0
  PricingTable = List (String × Rate)

  abbrev pub add_rates : List Rate → PricingTable → PricingTable
  add_rates [] t = t
  add_rates (r ∷ rates) t = add_rates rates (insert (key r.provider r.model) r t)

  unfoldable pub new_pricing_table : List Rate → PricingTable
  new_pricing_table rates = add_rates rates []

  -- `none` for a table that is nil.
  unfoldable pub rate_of : Option PricingTable → String → String → Option Rate
  rate_of none provider model = none
  rate_of (some t) provider model = lookup (key provider model) t

  abbrev per_million : ℤ → fl.Float → fl.Float
  per_million tokens price = fl.times (fl.divide (fl.of_int tokens) fl.million) price

  unfoldable pub cost_usd : Option PricingTable → String → String → ℤ → ℤ → Option fl.Float
  unfolding rate_of
  cost_usd t provider model prompt_tokens completion_tokens = elim (rate_of t provider model) [
    | none ↦ none
    | some r ↦
        if r.cost_model == "token_based"
        then some (
            fl.plus (per_million prompt_tokens r.input_per_million_usd)
              (per_million completion_tokens r.output_per_million_usd))
        else none
  ]
