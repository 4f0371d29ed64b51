-- ===== src/Gateway.antt =====
-- go/internal/api/tool_gateway_handlers.go and run_tenant.go: the policy-checked execution of tools.
pub mod Handlers
pub mod Gate
pub mod Kept
pub mod Replay
pub mod Refusal
pub mod Diverged
use aeon_agent_harness.Prelude.{
  ℕ, String, Bool, true, false, ◌&&◌, ◌||◌, not, Option, none, some, List, [], ◌∷◌, ◌⊎◌, inl, inr,
  if◌then◌else◌, ◌==◌, string_comparable,
}
use aeon_agent_harness.Json.{Json, null, object, RawMessage, absent}
use aeon_agent_harness.Checkpoint.{Entry, phase_completed}
use aeon_agent_harness.Checkpoint.Outcome.{outcome_denied_by_policy, outcome_payload}
use aeon_agent_harness.Journal.{Jsonb, Row, Stage, AppendError, append}
use aeon_agent_harness.Policy.{Disposition, deny_step, terminate_run}
use aeon_agent_harness.Policy.Engine.{
  Cedar, Engine, Decision, is_allowed, is_allowed_to_run_activity,
}
use aeon_agent_harness.Policy.TenantSet.{ByTenant, engine_for}
use aeon_agent_harness.Auth.{Caller, acts_as, acts_for_tenant, is_tenant_name}
use aeon_agent_harness.Executions.{
  Execution, Faults, ClaimError, execution_in_flight, ClaimResult, claim, complete, release,
}
use aeon_agent_harness.ToolExec.{
  Invocation, Executor, Outcome, ToolError, World, door_http, door_http_dedupe, record_refusal,
  record_replay, run_tool,
}

pub record ToolCallRequest : Type 0 where
  pub agent_manifest_ref : String
  pub tool_name : String
  pub args : Json
  pub idempotency_key : String
  pub run_id : String
  pub step_id : String

pub record ActivityPolicyRequest : Type 0 where
  pub agent_manifest_ref : String
  pub activity_name : String
  pub task_queue : String

pub data TenantRefusal : Type 0 where
  no_caller malformed_tenant foreign_tenant : TenantRefusal

-- The caller that the request was authenticated as, and the header X-Aeon-Run-Tenant.
unfoldable pub effective_tenant : Option Caller → String → TenantRefusal ⊎ String
effective_tenant none requested = inl no_caller
effective_tenant (some caller) requested =
    if requested == ""
    then inr caller.tenant
    else if not (is_tenant_name requested)
    then inl malformed_tenant
    else if not (acts_for_tenant caller requested)
    then inl foreign_tenant
    else inr requested

pub data DenialResult : Type 0 where
  is_waiting no_run no_checkpointer : DenialResult
  not_written : AppendError → DenialResult
  journalled : ℕ → Bool → DenialResult
  no_payload : DenialResult

-- `none` is an outcome that is left out of the answer.
pub record Denial : Type 0 where
  pub outcome : Option String
  pub journal : DenialResult
  pub disposition : Disposition
  pub disposition_declared : Bool
  pub policy_id : String
  pub recorded : Bool

-- `recorded` is absent where there is no recorder; `failed_attempts` where no key was given, or
-- where the result could not be recorded, which `unprotected` says.
pub record Executed : Type 0 where
  pub policy_id : String
  pub result : Option Json
  pub recorded : Option Bool
  pub failed_attempts : Option ℕ
  pub unprotected : Bool

pub data Response : Type 0 where
  bad_body missing_fields unauthenticated may_not_act : Response
  refused_tenant : TenantRefusal → Response
  no_bundle : String → Response
  decided : Decision → Response
  denied : Denial → Response
  not_configured args_diverged in_flight_elsewhere bad_recording : Response
  claim_failed : ClaimError → Response
  replayed : String → Json → Bool → Response
  tool_failed : ToolError → Response
  executed : Executed → Response

unfoldable pub disposition_outcome : Disposition → Option String
disposition_outcome deny_step = some outcome_denied_by_policy
disposition_outcome terminate_run = some outcome_denied_by_policy
disposition_outcome _ = none

abbrev pub denial_reason : Decision → String
denial_reason decision =
    if not (decision.policy_id == "")
    then Prim.Native.String.◌++◌ "denied by policy " decision.policy_id
    else "denied by policy: no policy in the bundle permits this tool for this agent (Cedar is default-deny)"

abbrev pub invocation : String → ToolCallRequest → String → Invocation
invocation tenant body door = record {
  tenant = tenant;
  tool_name = body.tool_name;
  args = body.args;
  run_id = body.run_id;
  step_id = body.step_id;
  agent_manifest_ref = body.agent_manifest_ref;
  door = door;
}

-- What `response` adds to a body.
abbrev pub recorded_of : Outcome → Option Bool
recorded_of out = if out.recorded then some true else if out.record_err then some false else none

-- The gateway's handles, and what the rest of the world does during one request.
pub record Deployment (cedar : Cedar) : Type 0 where
  pub policies : Option (ByTenant cedar)
  pub executor : Executor
  pub has_executions : Bool
  pub has_checkpointer : Bool
  pub faults : Faults
  pub journal_fault : Option Stage
  pub recorder_fails : Bool
  pub now : ℕ
  pub elapsed : ℕ

pub record Service : Type 0 where
  pub executions : List Execution
  pub journal : List Row
  pub world : World

-- json.Unmarshal into a map[string]any.
abbrev pub is_map : Json → Bool
is_map null = true
is_map (object _) = true
is_map _ = false

abbrev pub denial_entry : ToolCallRequest → RawMessage → Entry
denial_entry body payload = record {
  run_id = body.run_id;
  sub_run_id = "";
  step_id = body.step_id;
  phase = phase_completed;
  payload = payload;
}

abbrev tenant_status : TenantRefusal → ℕ
tenant_status no_caller = 401
tenant_status malformed_tenant = 400
tenant_status foreign_tenant = 403

-- The status that each answer is written with.
unfoldable pub status : Response → ℕ
status bad_body = 400
status missing_fields = 400
status unauthenticated = 401
status may_not_act = 403
status (refused_tenant why) = tenant_status why
status (no_bundle _) = 403
status (decided _) = 200
status (denied _) = 403
status not_configured = 500
status args_diverged = 409
status in_flight_elsewhere = 409
status bad_recording = 500
status (claim_failed _) = 500
status (replayed _ _ _) = 200
status (tool_failed _) = 404
status (executed _) = 200
