-- ===== src/DecideRoute/Costs.antt =====
-- go/internal/api/model_gateway_handlers.go: what is recorded of a call and of the attempts whose
-- answer was discarded.
use aeon_agent_harness.Prelude.{
  String, Bool, true, false, not, Option, none, some, List, [], ◌∷◌, if◌then◌else◌, ◌==◌,
  string_comparable,
}
use aeon_agent_harness.Prelude.Int.{ℤ, pos}
use aeon_agent_harness.Json.{Members, no_members, string_member}
use aeon_agent_harness.Finops.{Dollars}
use aeon_agent_harness.Finops.Ledger.{CostEntry, CostRow, record_entry, nullable}
use aeon_agent_harness.ModelGateway.{AttemptRecord, DecisionResult}
use aeon_agent_harness.ModelGateway.Routing.{discarded_attempts}
use aeon_agent_harness.DecideRoute.{Numerals, Setup}
use aeon_agent_harness.DecideRoute.Usage.{
  usage_tokens, usage_cache_tokens, reasoning_tokens_of, cost_model_name, known_cost,
}

-- The facts of the cost that an answer carries.
pub record CostFacts (fl : Dollars) : Type 0 where
  -- Set where it differs from the model that was asked for.
  pub served_model : Option String
  pub served_by_instance : Option String
  pub idempotent_replay_of : Option String
  pub cost_model : Option String
  pub cost_usd : Option fl.Float

abbrev pub discarded_of : AttemptRecord → Members
discarded_of a = elim a.discarded_output [ none ↦ no_members | some output ↦ output ]

module _ (fl : Dollars) (nm : Numerals fl) (su : Setup fl) where
  abbrev pub write_cost : Option String → CostEntry fl → List (CostRow fl) → List (CostRow fl)
  write_cost none e costs = costs
  write_cost (some tenant) e costs = record_entry fl (su.record_fails e) tenant e costs

  -- ledgerFor, as the tenant that it is for.
  unfoldable pub ledger_for : Option String → Option String
  ledger_for tenant = if su.has_ledger then tenant else none

  -- A row for an answer that was generated and not used.
  unfoldable pub discarded_entry : String → String → AttemptRecord → CostEntry fl
  discarded_entry run_id agent_ref a =
      let output = discarded_of a in
      let (prompt, completion) = usage_tokens fl nm output in
      let (cache_read, cache_write) = usage_cache_tokens fl nm output in
      record {
        provider = a.provider;
        model = a.model;
        cost_model = cost_model_name fl nm su.pricing a.provider a.model;
        prompt_tokens = prompt;
        completion_tokens = completion;
        cost_usd = known_cost fl nm su.pricing a.provider a.model prompt completion;
        run_id = run_id;
        agent_manifest_ref = agent_ref;
        cache_read_tokens = cache_read;
        cache_write_tokens = cache_write;
        reasoning_tokens = reasoning_tokens_of fl nm output;
        provider_request_id = string_member "provider_request_id" output;
        idempotent_replay_of = "";
        served_model = string_member "model" output;
        served_by_instance = string_member "served_by_instance" output;
        discarded_reason = a.err;
      }

  -- A provider that reported neither counter is not recorded.
  abbrev pub has_usage : Option ℤ × Option ℤ → Bool
  has_usage (none, none) = false
  has_usage _ = true

  unfoldable pub record_discarded :
      Option String → String → String → List AttemptRecord → List (CostRow fl) → List (CostRow fl)
  record_discarded ledger run_id agent_ref [] costs = costs
  record_discarded ledger run_id agent_ref (a ∷ attempts) costs =
      let next =
        if has_usage (usage_tokens fl nm (discarded_of a))
        then write_cost ledger (discarded_entry run_id agent_ref a) costs
        else costs in
      record_discarded ledger run_id agent_ref attempts next

  -- recordDiscardedAttempts
  unfoldable pub record_discarded_attempts :
      Option String → String → String → List AttemptRecord → List (CostRow fl) → List (CostRow fl)
  record_discarded_attempts ledger run_id agent_ref attempts costs =
      record_discarded ledger run_id agent_ref (discarded_attempts attempts) costs

  -- The entry of a replay, which consumed nothing.
  abbrev pub replay_entry : String → String → DecisionResult → CostEntry fl
  replay_entry run_id agent_ref result = record {
    provider = result.provider_used;
    model = result.model;
    cost_model = cost_model_name fl nm su.pricing result.provider_used result.model;
    prompt_tokens = some (pos 0);
    completion_tokens = some (pos 0);
    cost_usd = some nm.no_cost;
    run_id = run_id;
    agent_manifest_ref = agent_ref;
    cache_read_tokens = none;
    cache_write_tokens = none;
    reasoning_tokens = none;
    provider_request_id = string_member "provider_request_id" result.output;
    idempotent_replay_of = string_member "idempotent_replay_of" result.output;
    served_model = string_member "model" result.output;
    served_by_instance = string_member "served_by_instance" result.output;
    discarded_reason = "";
  }

  abbrev pub cost_of_result : DecisionResult → Option fl.Float
  cost_of_result result =
      let (prompt, completion) = usage_tokens fl nm result.output in
      known_cost fl nm su.pricing result.provider_used result.model prompt completion

  abbrev pub served_entry : String → String → DecisionResult → CostEntry fl
  served_entry run_id agent_ref result =
      let (prompt, completion) = usage_tokens fl nm result.output in
      let (cache_read, cache_write) = usage_cache_tokens fl nm result.output in
      record {
        provider = result.provider_used;
        model = result.model;
        cost_model = cost_model_name fl nm su.pricing result.provider_used result.model;
        prompt_tokens = prompt;
        completion_tokens = completion;
        cost_usd = cost_of_result result;
        run_id = run_id;
        agent_manifest_ref = agent_ref;
        cache_read_tokens = cache_read;
        cache_write_tokens = cache_write;
        reasoning_tokens = reasoning_tokens_of fl nm result.output;
        provider_request_id = string_member "provider_request_id" result.output;
        idempotent_replay_of = "";
        served_model = string_member "model" result.output;
        served_by_instance = string_member "served_by_instance" result.output;
        discarded_reason = "";
      }

  abbrev pub is_replay : DecisionResult → Bool
  is_replay result = not (string_member "idempotent_replay_of" result.output == "")

  -- The rows after recordCost. A replay returns before the discarded attempts are recorded.
  unfoldable pub record_cost :
      Option String → String → String → DecisionResult → List (CostRow fl) → List (CostRow fl)
  record_cost ledger run_id agent_ref result costs =
      if is_replay result
      then write_cost ledger (replay_entry run_id agent_ref result) costs
      else record_discarded_attempts ledger run_id agent_ref result.attempts
          (write_cost ledger (served_entry run_id agent_ref result) costs)

  abbrev differing : String → String → Option String
  differing served asked = if served == asked then none else nullable served

  -- What recordCost adds to the response.
  unfoldable pub cost_facts : DecisionResult → CostFacts fl
  cost_facts result =
      let served = string_member "model" result.output in
      let instance_ = string_member "served_by_instance" result.output in
      if is_replay result
      then record {
        served_model = differing served result.model;
        served_by_instance = nullable instance_;
        idempotent_replay_of = some (string_member "idempotent_replay_of" result.output);
        cost_model = none;
        cost_usd = some nm.no_cost;
      }
      else record {
        served_model = differing served result.model;
        served_by_instance = nullable instance_;
        idempotent_replay_of = none;
        cost_model = cost_model_name fl nm su.pricing result.provider_used result.model;
        cost_usd = cost_of_result result;
      }
