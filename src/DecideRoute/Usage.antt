-- ===== src/DecideRoute/Usage.antt =====
-- go/internal/api/model_gateway_handlers.go: what an answer says of its usage; and run_tenant.go: the
-- tenant where a refusal is not written.
use aeon_agent_harness.Prelude.{
  String, ◌&&◌, not, Option, none, some, if◌then◌else◌, ◌==◌, string_comparable,
}
use aeon_agent_harness.Prelude.Int.{ℤ, pos}
use aeon_agent_harness.Json.{Json, null, number, Members, member_of, as_map}
use aeon_agent_harness.Auth.{Caller, acts_for_tenant, is_tenant_name}
use aeon_agent_harness.Finops.{Dollars}
use aeon_agent_harness.Finops.Pricing.{PricingTable, rate_of, cost_usd}
use aeon_agent_harness.DecideRoute.{Numerals}

unfoldable pub effective_tenant_or_caller : Option Caller → String → String
effective_tenant_or_caller none requested = ""
effective_tenant_or_caller (some caller) requested =
    if not (requested == "") && (is_tenant_name requested && acts_for_tenant caller requested)
    then requested
    else caller.tenant

-- tenantOf, `none` for no tenant.
unfoldable pub tenant_of : Option Caller → String → Option String
unfolding effective_tenant_or_caller
tenant_of none requested = none
tenant_of (some caller) requested =
    if caller.tenant == "" then none else some (effective_tenant_or_caller (some caller) requested)

abbrev pub usage_block : Members → Members
usage_block output = as_map (member_of "usage" output none)

abbrev pub tokens_or_zero : Option ℤ → ℤ
tokens_or_zero none = pos 0
tokens_or_zero (some v) = v

module _ (fl : Dollars) (nm : Numerals fl) where
  abbrev to_int : Json → ℤ
  to_int (number n) = nm.read_int n
  to_int _ = pos 0

  abbrev pub optional_int : Option Json → Option ℤ
  optional_int none = none
  optional_int (some null) = none
  optional_int (some v) = some (to_int v)

  unfoldable pub usage_tokens : Members → Option ℤ × Option ℤ
  usage_tokens output = (
    optional_int (member_of "prompt_tokens" (usage_block output) none),
    optional_int (member_of "completion_tokens" (usage_block output) none),
  )

  unfoldable pub usage_cache_tokens : Members → Option ℤ × Option ℤ
  usage_cache_tokens output = (
    optional_int (member_of "cache_read_tokens" (usage_block output) none),
    optional_int (member_of "cache_write_tokens" (usage_block output) none),
  )

  unfoldable pub reasoning_tokens_of : Members → Option ℤ
  reasoning_tokens_of output = optional_int (member_of "reasoning_tokens" (usage_block output) none)

  -- costModelName
  unfoldable pub cost_model_name : Option (PricingTable fl) → String → String → Option String
  unfolding rate_of
  cost_model_name pricing provider model = elim (rate_of fl pricing provider model) [
    | none ↦ none
    | some r ↦ some r.cost_model
  ]

  abbrev priced_if : Option ℤ → Option ℤ → Option fl.Float → Option fl.Float
  priced_if (some p) (some c) usd = usd
  priced_if _ _ usd = none

  -- The cost of a call, unknown where a counter is.
  unfoldable pub known_cost :
      Option (PricingTable fl) → String → String → Option ℤ → Option ℤ → Option fl.Float
  unfolding cost_usd
  known_cost pricing provider model prompt completion =
      priced_if prompt completion
        (cost_usd fl pricing provider model (tokens_or_zero prompt) (tokens_or_zero completion))
