-- ===== src/Gateway/Handlers.antt =====
-- go/internal/api/tool_gateway_handlers.go: the handlers, from the request to the answer.
use aeon_agent_harness.Prelude.{
  String, false, ◌||◌, not, Option, none, some, List, ◌⊎◌, inl, inr, if◌then◌else◌, ◌==◌,
  string_comparable,
}
use aeon_agent_harness.Json.{Json, absent}
use aeon_agent_harness.Checkpoint.Outcome.{outcome_payload}
use aeon_agent_harness.Journal.{Jsonb, Row, append}
use aeon_agent_harness.Policy.Engine.{
  Cedar, Engine, Decision, is_allowed, is_allowed_to_run_activity,
}
use aeon_agent_harness.Policy.TenantSet.{engine_for}
use aeon_agent_harness.Auth.{Caller, acts_as}
use aeon_agent_harness.Executions.{
  ClaimError, execution_in_flight, ClaimResult, claim, complete, release,
}
use aeon_agent_harness.ToolExec.{
  door_http, door_http_dedupe, record_refusal, record_replay, run_tool,
}
use aeon_agent_harness.Gateway.{
  ToolCallRequest, ActivityPolicyRequest, effective_tenant, DenialResult, is_waiting, no_run,
  no_checkpointer, not_written, journalled, no_payload, Response, bad_body, missing_fields,
  unauthenticated, may_not_act, refused_tenant, no_bundle, decided, denied, not_configured,
  args_diverged, in_flight_elsewhere, bad_recording, claim_failed, replayed, tool_failed, executed,
  disposition_outcome, denial_reason, invocation, recorded_of, Deployment, Service, is_map,
  denial_entry,
}

module _ (db : Jsonb) (cedar : Cedar) (d : Deployment cedar) where
  unfoldable pub journal_denial :
      String → ToolCallRequest → String → String → List Row → List Row × DenialResult
  journal_denial tenant body outcome reason journal =
      if body.run_id == "" || body.step_id == ""
      then (journal, no_run)
      else if not d.has_checkpointer
      then (journal, no_checkpointer)
      else elim (outcome_payload outcome reason absent) [
        | none ↦ (journal, no_payload)
        | some payload ↦
            let (journal', answer) =
              append db d.journal_fault d.now tenant (denial_entry body payload) journal in
            (
              journal',
              elim answer [
                | inl why ↦ not_written why
                | inr res ↦ journalled res.seq res.duplicate
              ],
            )
      ]

  -- A step that waits for a person is not journalled.
  unfoldable pub journal_outcome :
      String → ToolCallRequest → Option String → String → List Row → List Row × DenialResult
  journal_outcome tenant body none reason journal = (journal, is_waiting)
  journal_outcome tenant body (some outcome) reason journal =
      journal_denial tenant body outcome reason journal

  -- The branch of `execute` for a decision that does not allow the call.
  unfoldable pub refuse : String → ToolCallRequest → Decision → Service → Service × Response
  refuse tenant body decision s =
      let outcome = disposition_outcome decision.disposition in
      let (journal', journal) =
        journal_outcome tenant body outcome (denial_reason decision) s.journal in
      let (world', refusal) =
        record_refusal d.recorder_fails d.executor (invocation tenant body door_http)
          decision.disposition decision.policy_id s.world in
      (
        record s { journal = journal'; world = world' },
        denied (record {
          outcome = outcome;
          journal = journal;
          disposition = decision.disposition;
          disposition_declared = decision.disposition_declared;
          policy_id = decision.policy_id;
          recorded = refusal.recorded;
        }),
      )

  -- The call runs, and what it did to the key is written.
  unfoldable pub execute_claimed :
      String → ToolCallRequest → String → ClaimResult → Service → Service × Response
  execute_claimed tenant body policy_id claimed s =
      let (world', out, err) =
        run_tool d.recorder_fails d.elapsed d.executor (invocation tenant body door_http_dedupe)
          s.world in
      elim err [
        | some why ↦
            let (rows, _) = release d.faults tenant body.idempotency_key s.executions in
            (record s { executions = rows; world = world' }, tool_failed why)
        | none ↦
            let (rows, lost) =
              complete db d.faults tenant body.idempotency_key out.result s.executions in
            (
              record s { executions = rows; world = world' },
              executed (record {
                policy_id = policy_id;
                result = out.result;
                recorded = recorded_of out;
                failed_attempts = if lost then none else some claimed.failed_attempts;
                unprotected = lost;
              }),
            )
      ]

  -- The answer to a call that was executed before.
  unfoldable pub replay : String → ToolCallRequest → String → Json → Service → Service × Response
  replay tenant body policy_id recorded s =
      if not (is_map recorded)
      then (s, bad_recording)
      else let (world', out) =
          record_replay d.recorder_fails d.executor (invocation tenant body door_http_dedupe)
            policy_id s.world in
        (record s { world = world' }, replayed policy_id recorded out.recorded)

  -- What follows a claim, by the order of the handler's tests.
  unfoldable pub after_claim :
      String
      → ToolCallRequest
      → String
      → ClaimResult
      → Option ClaimError
      → Service
      → Service × Response
  after_claim tenant body policy_id claimed err s =
      if claimed.args_diverged then (s, args_diverged) else elim err [
        | some execution_in_flight ↦ (s, in_flight_elsewhere)
        | some why ↦ (s, claim_failed why)
        | none ↦ elim claimed.completed_result [
          | some recorded ↦ replay tenant body policy_id recorded s
          | none ↦ execute_claimed tenant body policy_id claimed s
        ]
      ]

  -- executeDeduplicated. Its tenant is computed again from the same request.
  unfoldable pub execute_deduplicated :
      String → ToolCallRequest → String → Service → Service × Response
  execute_deduplicated tenant body policy_id s =
      if not d.has_executions
      then (s, not_configured)
      else let (rows, claimed, err) =
          claim db d.faults tenant body.idempotency_key body.tool_name body.agent_manifest_ref
            body.args s.executions in
        after_claim tenant body policy_id claimed err (record s { executions = rows })

  unfoldable pub execute_plain : String → ToolCallRequest → String → Service → Service × Response
  execute_plain tenant body policy_id s =
      let (world', out, err) =
        run_tool d.recorder_fails d.elapsed d.executor (invocation tenant body door_http) s.world in
      (
        record s { world = world' },
        elim err [
          | some why ↦ tool_failed why
          | none ↦ executed (record {
            policy_id = policy_id;
            result = out.result;
            recorded = recorded_of out;
            failed_attempts = none;
            unprotected = false;
          })
        ],
      )

  -- The call of an authorized caller, once the decision is made.
  unfoldable pub execute_decided :
      String → ToolCallRequest → Decision → Service → Service × Response
  execute_decided tenant body decision s =
      if not decision.allowed
      then refuse tenant body decision s
      else if not (body.idempotency_key == "")
      then execute_deduplicated tenant body decision.policy_id s
      else execute_plain tenant body decision.policy_id s

  -- engineFor.
  unfoldable pub engine_of : Option Caller → String → Response ⊎ (Engine cedar × String)
  engine_of caller header = elim (effective_tenant caller header) [
    | inl why ↦ inl (refused_tenant why)
    | inr tenant ↦ elim (engine_for cedar d.policies tenant) [
      | none ↦ inl (no_bundle tenant)
      | some engine ↦ inr (engine, tenant)
    ]
  ]

  -- The handler; `none` is a body that is not decoded.
  unfoldable pub execute :
      Option Caller → String → Option ToolCallRequest → Service → Service × Response
  execute caller header none s = (s, bad_body)
  execute none header (some body) s = (s, unauthenticated)
  execute (some caller) header (some body) s =
      if not (acts_as caller body.agent_manifest_ref)
      then (s, may_not_act)
      else elim (engine_of (some caller) header) [
        | inl refusal ↦ (s, refusal)
        | inr (engine, tenant) ↦
            execute_decided tenant body
              (is_allowed cedar engine body.agent_manifest_ref body.tool_name) s
      ]

  unfoldable pub check_policy : Option Caller → String → Option ToolCallRequest → Response
  check_policy caller header none = bad_body
  check_policy caller header (some body) = elim (engine_of caller header) [
    | inl refusal ↦ refusal
    | inr (engine, tenant) ↦
        decided (is_allowed cedar engine body.agent_manifest_ref body.tool_name)
  ]

  unfoldable pub check_activity_policy :
      Option Caller → String → Option ActivityPolicyRequest → Response
  check_activity_policy caller header none = bad_body
  check_activity_policy none header (some body) =
      if body.activity_name == "" || body.task_queue == "" then missing_fields else unauthenticated
  check_activity_policy (some caller) header (some body) =
      if body.activity_name == "" || body.task_queue == ""
      then missing_fields
      else if not (acts_as caller body.agent_manifest_ref)
      then may_not_act
      else elim (engine_of (some caller) header) [
        | inl refusal ↦ refusal
        | inr (engine, tenant) ↦ decided (
            is_allowed_to_run_activity cedar engine body.agent_manifest_ref body.activity_name
              body.task_queue)
      ]
