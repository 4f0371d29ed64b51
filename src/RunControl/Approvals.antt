-- ===== src/RunControl/Approvals.antt =====
-- go/internal/api/run_controller_handlers.go: the decisions of people on calls that wait.
use aeon_agent_harness.Prelude.{
  String, Bool, true, false, not, Option, none, some, List, ◌⊎◌, inl, inr, if◌then◌else◌, ◌==◌,
  string_comparable, ℕ,
}
use aeon_agent_harness.Json.{boolean, text, object, no_members, member, RawMessage, valid}
use aeon_agent_harness.Auth.{Caller, Kind, service, human, external, other_kind}
use aeon_agent_harness.Checkpoint.{Entry, phase_completed}
use aeon_agent_harness.Checkpoint.Outcome.{
  outcome_payload_decided_by, outcome_for_approval, approval_step,
}
use aeon_agent_harness.Journal.{Jsonb, Row, Stage, append}
use aeon_agent_harness.RunControl.{Temporal}
use aeon_agent_harness.RunControl.Controller.{ApprovalDecision, send_approval_decision}
use aeon_agent_harness.RunControl.Handlers.{
  ApprovalJournalResult, no_checkpointer, no_approval_id, no_payload, not_written, journalled,
  ControlResponse, bad_body, missing_fields, unauthenticated, may_not_approve, controller_failed,
  decision_sent, Plane, owned_run, caller_tenant_or_empty,
}

-- `%s` of a Kind.
abbrev pub kind_text : Kind → String
kind_text service = "service"
kind_text human = "human"
kind_text external = "external"
kind_text (other_kind k) = k

-- approver; the body of each route is the hash of the call.
unfoldable pub approver : Option Caller → ControlResponse ⊎ Caller
approver none = inl unauthenticated
approver (some caller) =
    if not caller.may_approve then inl (may_not_approve caller.id) else inr caller

-- The journal of the deployment, and `%q` of a string.
pub record Journalling : Type 0 where
  pub has_checkpointer : Bool
  pub journal_fault : Option Stage
  pub now : ℕ
  pub quoted : String → String

abbrev pub approval_detail : ApprovalDecision → RawMessage
approval_detail decision = valid (
    object (
      member "approved" (boolean decision.approved) (
        member "node_id" (text decision.node_id)
          (member "tool_call_hash" (text decision.tool_call_hash) no_members))))

abbrev pub approval_reason : (String → String) → Caller → String
approval_reason quoted caller = Prim.Native.String.◌++◌ "decided by " (
    Prim.Native.String.◌++◌ (kind_text caller.kind) (
      Prim.Native.String.◌++◌ " "
        (Prim.Native.String.◌++◌ (quoted caller.id) " via the run controller")))

abbrev pub approval_entry : String → ApprovalDecision → RawMessage → Entry
approval_entry run_id decision payload = record {
  run_id = run_id;
  sub_run_id = "";
  step_id = approval_step decision.approval_id;
  phase = phase_completed;
  payload = payload;
}

abbrev pub approval_payload : (String → String) → Caller → ApprovalDecision → Option RawMessage
approval_payload quoted caller decision =
    outcome_payload_decided_by (outcome_for_approval decision.approved)
      (approval_reason quoted caller) caller.id (approval_detail decision)

module _ (db : Jsonb) (d : Journalling) where
  unfoldable pub journal_approval :
      String → Caller → ApprovalDecision → List Row → List Row × ApprovalJournalResult
  journal_approval run_id caller decision rows =
      if not d.has_checkpointer
      then (rows, no_checkpointer)
      else if decision.approval_id == ""
      then (rows, no_approval_id)
      else elim (approval_payload d.quoted caller decision) [
        | none ↦ (rows, no_payload)
        | some payload ↦
            let (rows', answer) =
              append db d.journal_fault d.now (caller_tenant_or_empty (some caller))
                (approval_entry run_id decision payload) rows in
            (
              rows',
              elim answer [
                | inl why ↦ not_written why
                | inr res ↦ journalled (approval_step decision.approval_id) res.seq res.duplicate
              ],
            )
      ]

  module _ (tp : Temporal) where
    -- respondToApproval
    unfoldable pub respond_to_approval :
        String → Caller → ApprovalDecision → Plane tp → Plane tp × ControlResponse
    respond_to_approval run_id caller decision p =
        let (rows, journal) = journal_approval run_id caller decision p.journal in
        (
          record p { journal = rows },
          decision_sent (record {
            approval_id = decision.approval_id;
            tool_call_hash = decision.tool_call_hash;
            outcome = outcome_for_approval decision.approved;
            decided_by = caller.id;
            journal = journal;
          }),
        )

    -- What follows the approver and the run of a request.
    unfoldable pub send_and_respond :
        Bool → Caller → String → String → String → Plane tp → Plane tp × ControlResponse
    send_and_respond approved caller run_id wf hash p =
        let (w, answer) = send_approval_decision tp wf hash approved p.world in
        let p' : Plane tp = record p { world = w } in
        elim answer [
          | inl why ↦ (p', controller_failed why)
          | inr decision ↦ respond_to_approval run_id caller decision p'
        ]

    -- The handlers approve and reject, by what is decided; `none` is a body that is not decoded.
    unfoldable pub decide_approval :
        Bool → Option Caller → String → Option String → Plane tp → Plane tp × ControlResponse
    decide_approval approved caller run_id none p = (p, bad_body)
    decide_approval approved caller run_id (some hash) p =
        if hash == "" then (p, missing_fields) else elim (approver caller) [
          | inl refusal ↦ (p, refusal)
          | inr who ↦ elim (owned_run tp caller run_id p) [
            | inl refusal ↦ (p, refusal)
            | inr wf ↦ send_and_respond approved who run_id wf hash p
          ]
        ]

    abbrev pub approve :
        Option Caller → String → Option String → Plane tp → Plane tp × ControlResponse
    approve caller run_id body p = decide_approval true caller run_id body p

    abbrev pub reject :
        Option Caller → String → Option String → Plane tp → Plane tp × ControlResponse
    reject caller run_id body p = decide_approval false caller run_id body p
