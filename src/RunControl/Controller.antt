-- ===== src/RunControl/Controller.antt =====
-- go/internal/runcontroller/controller.go: the Controller's methods.
use aeon_agent_harness.Prelude.{
  String, Bool, true, false, Option, none, some, ◌⊎◌, inl, inr, if◌then◌else◌, ◌==◌,
  string_comparable,
}
use aeon_agent_harness.Json.{
  Json, null, text, object, Members, no_members, member, member_of, string_member,
}
use aeon_agent_harness.RunControl.{
  TenantMemo, no_tenant_memo, unreadable_memo, tenant_memo, StartOptions, Temporal,
}

abbrev pub default_tenant : String
default_tenant = "default"

abbrev pub default_task_queue : String
default_task_queue = "aeon-agent-run"

abbrev pub workflow_type : String
workflow_type = "GraphRunWorkflow"

abbrev pub workflow_id_prefix : String
workflow_id_prefix = "graph-run-"

abbrev pub workflow_id : String → String
workflow_id run_id = Prim.Native.String.◌++◌ workflow_id_prefix run_id

-- New's choice of the queue.
abbrev pub task_queue_of : String → String
task_queue_of given = if given == "" then default_task_queue else given

pub record RunInfo : Type 0 where
  pub run_id : String
  pub workflow_id : String
  pub temporal_run_id : String

pub record ApprovalDecision : Type 0 where
  pub approval_id : String
  pub node_id : String
  pub tool_call_hash : String
  pub approved : Bool

pub data ControlError : Type 0 where
  not_described not_queried nothing_pending not_signalled : ControlError
  memo_unreadable not_started not_cancelled : ControlError

-- What the start passes on, a key only where it was given.
abbrev pub start_input : String → Members → Option Members → String → Members
start_input run_id graph budgets agent_ref =
    let rest : Members = elim budgets [
      | none ↦ no_members
      | some b ↦ member "budgets" (object b) no_members
    ] in
    let rest' : Members =
      if agent_ref == "" then rest else member "agent_manifest_ref" (text agent_ref) rest in
    member "run_id" (text run_id) (member "graph" (object graph) rest')

abbrev pub approval_id_of : Members → Json
approval_id_of pending = elim (member_of "approval_id" pending none) [ none ↦ null | some j ↦ j ]

abbrev pub decision_message : Members → String → Members
decision_message pending hash =
    member "approval_id" (approval_id_of pending) (member "tool_call_hash" (text hash) no_members)

abbrev pub sent_decision : Members → String → Bool → ApprovalDecision
sent_decision pending hash approved = record {
  approval_id = string_member "approval_id" pending;
  node_id = string_member "node_id" pending;
  tool_call_hash = hash;
  approved = approved;
}

abbrev pub signal_name : Bool → String
signal_name true = "approve"
signal_name false = "reject"

abbrev named_tenant : TenantMemo → ControlError ⊎ String
named_tenant no_tenant_memo = inr default_tenant
named_tenant unreadable_memo = inl memo_unreadable
named_tenant (tenant_memo t) = if t == "" then inr default_tenant else inr t

module _ (tp : Temporal) where
  unfoldable pub start :
      String
      → String
      → Members
      → Option Members
      → String
      → String
      → tp.World
      → tp.World × (ControlError ⊎ RunInfo)
  start task_queue run_id graph budgets agent_ref tenant w =
      let options : StartOptions = record {
        id = workflow_id run_id;
        task_queue = task_queue;
        tenant = tenant;
        workflow_type = workflow_type;
        input = start_input run_id graph budgets agent_ref;
      } in
      let (w', answer) = tp.execute_workflow options w in
      (
        w',
        elim answer [
          | none ↦ inl not_started
          | some temporal_run_id ↦ inr (record {
            run_id = run_id;
            workflow_id = workflow_id run_id;
            temporal_run_id = temporal_run_id;
          })
        ],
      )

  unfoldable pub pending_approval : String → tp.World → ControlError ⊎ Option Members
  pending_approval wf w = elim (tp.query_pending_approval wf w) [
    | none ↦ inl not_queried
    | some pending ↦ inr pending
  ]

  abbrev pub signal_decision :
      String
      → String
      → Bool
      → Option Members
      → tp.World
      → tp.World × (ControlError ⊎ ApprovalDecision)
  signal_decision wf hash approved none w = (w, inl nothing_pending)
  signal_decision wf hash approved (some pending) w =
      let (w', sent) =
        tp.signal_workflow wf (signal_name approved) (some (decision_message pending hash)) w in
      (w', if sent then inr (sent_decision pending hash approved) else inl not_signalled)

  -- sendApprovalDecision, which Approve and Reject call.
  unfoldable pub send_approval_decision :
      String → String → Bool → tp.World → tp.World × (ControlError ⊎ ApprovalDecision)
  unfolding pending_approval
  send_approval_decision wf hash approved w = elim (pending_approval wf w) [
    | inl why ↦ (w, inl why)
    | inr pending ↦ signal_decision wf hash approved pending w
  ]

  -- TenantOf
  unfoldable pub tenant_of_run : String → tp.World → ControlError ⊎ String
  tenant_of_run wf w = elim (tp.describe wf w) [
    | none ↦ inl not_described
    | some desc ↦ named_tenant desc.memo
  ]

  unfoldable pub cancel : String → tp.World → tp.World × Bool
  cancel wf w = tp.cancel_workflow wf w

  unfoldable pub pause : String → tp.World → tp.World × Bool
  pause wf w = tp.signal_workflow wf "pause" none w

  unfoldable pub resume : String → tp.World → tp.World × Bool
  resume wf w = tp.signal_workflow wf "resume" none w
