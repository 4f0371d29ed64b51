-- ===== src/RunControl/Reports.antt =====
-- go/internal/runcontroller/controller.go: the status of a run, with what it spent.
use aeon_agent_harness.Prelude.{
  ℕ, suc, String, Bool, true, false, Option, none, some, List, ◌⊎◌, inl, inr, ltb, if◌then◌else◌,
  ◌==◌, string_comparable,
}
use aeon_agent_harness.Prelude.Int.{ℤ, pos, negsuc}
use aeon_agent_harness.Prelude.Text.{decimal, after_text}
use aeon_agent_harness.Json.{Json, number, Members, no_members}
use aeon_agent_harness.Finops.{Dollars}
use aeon_agent_harness.Finops.Ledger.{CostRow, RunSpend, spend_for_run}
use aeon_agent_harness.ModelGateway.Messages.{set_member}
use aeon_agent_harness.RunControl.{ExecutionStatus, execution_running, Description, Temporal}
use aeon_agent_harness.RunControl.Failures.{Failure, failure_of, map_status, has_failed}
use aeon_agent_harness.RunControl.Controller.{
  ControlError, not_described, workflow_id_prefix, pending_approval,
}

pub record Status : Type 0 where
  pub workflow_id : String
  pub status : String
  pub paused : Bool
  pub pending : Option Members
  pub budgets_consumed : Option Members
  pub failure : Option Failure

abbrev int_json : ℤ → Json
int_json (pos n) = number (decimal n)
int_json (negsuc n) = number (Prim.Native.String.◌++◌ "-" (decimal (suc n)))

abbrev set_if_positive : String → ℕ → Members → Members
set_if_positive key n ms = if ltb 0 n then set_member key (number (decimal n)) ms else ms

abbrev or_empty : Option Members → Members
or_empty none = no_members
or_empty (some ms) = ms

abbrev is_running : ExecutionStatus → Bool
is_running execution_running = true
is_running _ = false

abbrev or_false : Option Bool → Bool
or_false none = false
or_false (some b) = b

abbrev or_null : ControlError ⊎ Option Members → Option Members
or_null (inl why) = none
or_null (inr pending) = pending

abbrev flattened : Option (Option Members) → Option Members
flattened none = none
flattened (some m) = m

abbrev is_there : Option Members → Bool
is_there none = false
is_there (some _) = true

module _ (tp : Temporal) where
  -- The ledger of the deployment, if it has one; `print` is the JSON of a float.
  module _ (fl : Dollars) (no_cost : fl.Float) (print : fl.Float → String) where
    abbrev with_spend : RunSpend fl → Members → Members
    with_spend spend consumed =
        set_if_positive "unreported_usage_calls" spend.unreported_usage_calls (
          set_if_positive "unpriced_calls" spend.unpriced_calls (
            set_member "cost_usd" (number (print spend.cost_usd)) (
              set_member "tokens" (int_json spend.tokens)
                (set_member "model_calls" (number (decimal spend.model_calls)) consumed))))

    -- addLedgerSpend; `costs` is `none` where there is no ledger.
    unfoldable pub add_ledger_spend :
        Bool → String → String → Option (List (CostRow fl)) → Option Members → Option Members
    add_ledger_spend fails wf tenant none consumed = consumed
    add_ledger_spend fails wf tenant (some costs) consumed =
        if tenant == ""
        then consumed
        else elim (spend_for_run fl no_cost fails tenant (after_text workflow_id_prefix wf) costs) [
          | none ↦ consumed
          | some spend ↦ some (with_spend spend (or_empty consumed))
        ]

    abbrev status_from :
        Bool → String → String → Option (List (CostRow fl)) → tp.World → Description → Status
    status_from fails wf tenant costs w desc =
        let running = is_running desc.status in
        let paused = if running then or_false (tp.query_is_paused wf w) else false in
        let pending = if running then or_null (pending_approval tp wf w) else none in
        record {
          workflow_id = wf;
          status = map_status desc.status paused (is_there pending);
          paused = paused;
          pending = pending;
          budgets_consumed =
              add_ledger_spend fails wf tenant costs (flattened (tp.query_budgets_consumed wf w));
          failure = if has_failed desc.status then failure_of (tp.close_event wf w) else none;
        }

    -- Status, where nothing changes between its calls of Temporal.
    unfoldable pub status_of :
        Bool → String → String → Option (List (CostRow fl)) → tp.World → ControlError ⊎ Status
    unfolding pending_approval add_ledger_spend map_status
    status_of fails wf tenant costs w = elim (tp.describe wf w) [
      | none ↦ inl not_described
      | some desc ↦ inr (status_from fails wf tenant costs w desc)
    ]
