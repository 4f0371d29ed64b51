-- ===== src/DecideRoute/Budget.antt =====
-- go/internal/api/model_gateway_handlers.go: whether a run has spent what its agent's manifest
-- allows.
use Prim.Native.Char.{code}
use aeon_agent_harness.Prelude.{
  ◌+◌, String, Bool, false, ◌||◌, not, Option, none, some, inl, inr, if◌then◌else◌, ◌==◌,
  string_comparable, nat_comparable,
}
use aeon_agent_harness.Prelude.Int.{ℤ, pos, leb_ℤ}
use aeon_agent_harness.Json.{Members, as_map}
use aeon_agent_harness.Finops.{Dollars}
use aeon_agent_harness.Finops.Ceiling.{Ceiling, ceiling_from_manifest, is_declared}
use aeon_agent_harness.Finops.Ledger.{RunSpend, spend_for_run}
use aeon_agent_harness.Registry.{AgentRecord, get_agent}
use aeon_agent_harness.DecideRoute.{Numerals, Books, Setup}

-- What stands before the last @, and after it.
abbrev pub at_last : String → Option (String × String)
at_last String.[] = none
at_last (String.◌∷◌ c s) = elim (at_last s) [
  | some (name, version) ↦ some (String.◌∷◌ c name, version)
  | none ↦ if code c == b'@' then some ("", s) else none
]

abbrev pub both_named : Option (String × String) → Option (String × String)
both_named none = none
both_named (some (name, version)) =
    if name == "" || version == "" then none else some (name, version)

unfoldable pub split_manifest_ref : String → Option (String × String)
split_manifest_ref ref = both_named (at_last ref)

pub data Exceeded : Type 0 where
  cost_exceeded tokens_exceeded model_calls_exceeded : Exceeded

module _ (fl : Dollars) (nm : Numerals fl) where
  abbrev pub CeilingOf : Type 0
  CeilingOf = Ceiling fl nm.read nm.not_negative nm.truncated

  abbrev pub cost_reached : Option fl.Float → fl.Float → Bool
  cost_reached none spent = false
  cost_reached (some limit) spent = nm.at_least spent limit

  abbrev pub count_reached : Option ℤ → ℤ → Bool
  count_reached none spent = false
  count_reached (some limit) spent = leb_ℤ limit spent

  -- The first ceiling that the spend has reached. A discarded call counts as a call.
  unfoldable pub exceeded_by : CeilingOf → RunSpend fl → Option Exceeded
  exceeded_by ceiling spend =
      if cost_reached ceiling.cost_usd spend.cost_usd
      then some cost_exceeded
      else if count_reached ceiling.tokens spend.tokens
      then some tokens_exceeded
      else if count_reached ceiling.model_calls (pos (spend.model_calls + spend.discarded_calls))
      then some model_calls_exceeded
      else none

  -- The refusal's body, but for the texts. Its `retryable` is false, its `disposition`
  -- terminate_run.
  pub record Refusal : Type 0 where
    pub exceeded : Exceeded
    pub run_id : String
    pub agent_manifest_ref : String
    pub ceiling : CeilingOf
    pub spend : RunSpend fl

  abbrev pub manifest_of : AgentRecord → Members
  manifest_of a = as_map (some a.manifest)

  abbrev pub refusal_of : String → String → CeilingOf → Option (RunSpend fl) → Option Refusal
  refusal_of run_id agent_ref ceiling none = none
  refusal_of run_id agent_ref ceiling (some spend) = elim (exceeded_by ceiling spend) [
    | none ↦ none
    | some why ↦ some (record {
      exceeded = why;
      run_id = run_id;
      agent_manifest_ref = agent_ref;
      ceiling = ceiling;
      spend = spend;
    })
  ]

  -- What follows once the tenant's registry gave the agent.
  unfoldable pub over_ceiling :
      Setup fl → String → String → String → Books fl → AgentRecord → Option Refusal
  over_ceiling su tenant run_id agent_ref books a =
      let ceiling =
        (ceiling_from_manifest fl nm.read nm.not_negative nm.truncated (manifest_of a)).0 in
      if not (is_declared fl nm.read nm.not_negative nm.truncated ceiling)
      then none
      else refusal_of run_id agent_ref ceiling
          (spend_for_run fl nm.no_cost su.spend_fails tenant run_id books.costs)

  abbrev pub over_budget_of :
      Setup fl → String → String → String → Books fl → String × String → Option Refusal
  over_budget_of su tenant run_id agent_ref books (name, version) =
      elim (get_agent su.agents_fail tenant name version books.agents) [
        | inl why ↦ none
        | inr a ↦ over_ceiling su tenant run_id agent_ref books a
      ]

  abbrev pub over_budget_for : Setup fl → String → String → Books fl → String → Option Refusal
  over_budget_for su run_id agent_ref books tenant =
      if not su.has_agents || (not su.has_ledger || (run_id == "" || agent_ref == ""))
      then none
      else elim (split_manifest_ref agent_ref) [
        | none ↦ none
        | some parts ↦ over_budget_of su tenant run_id agent_ref books parts
      ]

  -- overBudget, and refuseIfOverBudget, which only adds a span. `none` lets the call proceed.
  unfoldable pub over_budget :
      Setup fl → Option String → String → String → Books fl → Option Refusal
  over_budget su none run_id agent_ref books = none
  over_budget su (some tenant) run_id agent_ref books =
      over_budget_for su run_id agent_ref books tenant
