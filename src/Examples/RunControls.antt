-- ===== src/Examples/RunControls.antt =====
-- A run of one tenant, whose call waits for a person; Temporal takes every signal.
use aeon_agent_harness.Prelude.{
  String, true, false, not, none, some, List, [], ◌∷◌, ◌≡◌, ◌≢◌, refl, inr, ◌⊎◌, arith, ◌==◌,
  string_comparable, eq_iff,
}
use aeon_agent_harness.Json.{Members, member, no_members, text}
use aeon_agent_harness.Auth.{Caller, human}
use aeon_agent_harness.Checkpoint.{validate}
use aeon_agent_harness.Checkpoint.State.{RunState}
use aeon_agent_harness.Checkpoint.Outcome.{
  outcome_for_approval, approval_step, step_outcome, approval_actor, outcome_payload_decided_by,
}
use aeon_agent_harness.Journal.{append, load, find_row, next_position}
use aeon_agent_harness.Registry.{
  AgentRecord, find_agent, update_agent, is_agent, get_agent, read_back,
}
use aeon_agent_harness.Registry.Methods.{no_gaps, quarantine, with_quarantine, write_agent}
use aeon_agent_harness.RunControl.{Temporal, tenant_memo, closed_otherwise, execution_running}
use aeon_agent_harness.RunControl.Controller.{
  ControlError, tenant_of_run, send_approval_decision, pending_approval, workflow_id,
}
use aeon_agent_harness.RunControl.Reports.{Status}
use aeon_agent_harness.RunControl.Handlers.{
  is_terminal, StartRunRequest, ApprovalAnswer, journalled, decision_sent, quarantined_agent, Plane,
  owned_run, start_run,
}
use aeon_agent_harness.RunControl.Approvals.{
  Journalling, approver, approval_reason, journal_approval, respond_to_approval, send_and_respond,
  decide_approval,
}
use aeon_agent_harness.RunControl.Owners.{
  by_id, on_stream, RouteAnswer, IsSignalled, decide_approval-authorized,
}
use aeon_agent_harness.RunControl.Stream.{status_event, stream_from}
use aeon_agent_harness.RunControl.Closes.{Closes, stream_from-Closes}
use aeon_agent_harness.RunControl.Decided.{decide_approval-step_outcome}
use aeon_agent_harness.RunControl.Quarantined.{start_run-quarantine}
use aeon_agent_harness.Examples.Database.{turning, turning-KeepsMembers}
use aeon_agent_harness.Examples.Ledgers.{dollars}
use aeon_agent_harness.Examples.Registries.{no_faults, released}

abbrev waiting : Members
waiting = member "approval_id" (text "ap-1") (member "node_id" (text "n1") no_members)

-- A world is the runs that exist, and what was signalled.
abbrev temporal : Temporal
temporal = record {
  World = List String × List String;
  execute_workflow = λ options w. ((options.id ∷ w.0, w.1), some "t");
  cancel_workflow = λ wf w. ((w.0, "cancel" ∷ w.1), true);
  signal_workflow = λ wf name input w. ((w.0, name ∷ w.1), true);
  describe = λ wf w. elim w.0 [
    | [] ↦ none
    | _ ∷ _ ↦ some (record { status = execution_running; memo = tenant_memo "acme" })
  ];
  query_pending_approval = λ wf w. some (some waiting);
  query_is_paused = λ wf w. some false;
  query_budgets_consumed = λ wf w. some none;
  close_event = λ wf w. some closed_otherwise;
}

abbrev journalling : Journalling
journalling = record { has_checkpointer = true; journal_fault = none; now = 7; quoted = λ s. s }

abbrev quarantined : List AgentRecord
quarantined = (quarantine no_faults no_gaps 8 "acme" "a" "1" "leaks" (released ∷ [])).0

abbrev plane : Plane temporal
plane = record { world = ("run-1" ∷ [], []); journal = []; agents = quarantined }

abbrev no_runs : Plane temporal
no_runs = record { world = ([], []); journal = []; agents = [] }

abbrev person : String → Caller
person tenant = record {
  id = "ana";
  kind = human;
  token_sha256 = "";
  may_act_as = [];
  may_approve = true;
  tenant = tenant;
  may_act_for_tenants = [];
}

abbrev foreign_stream : Plane temporal → Plane temporal × RouteAnswer
foreign_stream p =
    by_id temporal turning journalling dollars 0 (λ c. "0") (on_stream true) false none
      ((plane.world, false, none) ∷ []) (some (person "evil")) "run-1" p

decide_approval-authorized_example :
    ((decide_approval turning journalling temporal true
        (some (person "acme"))
        "run-1"
        (some "h")
        plane).0
      ≡ plane)
    ⊎ ((who : Caller) × (some (person "acme") ≡ some who)
        × (who.may_approve ≡ true)
        × (tenant_of_run temporal (workflow_id "run-1") plane.world ≡ inr who.tenant)
        × (hash : String) × (some "h" ≡ some hash)
        × (hash ≢ "")
        × IsSignalled temporal turning journalling true "run-1" hash plane
            (decide_approval turning journalling temporal true
              (some (person "acme"))
              "run-1"
              (some "h")
              plane).0)
decide_approval-authorized_example =
    decide_approval-authorized temporal turning journalling true (some (person "acme")) "run-1"
      (some "h") plane

abbrev granted : ApprovalAnswer
granted = record {
  approval_id = "ap-1";
  tool_call_hash = "h";
  outcome = outcome_for_approval true;
  decided_by = "ana";
  journal = journalled (approval_step "ap-1") 0 false;
}

ana_grants :
    (decide_approval turning journalling temporal true
      (some (person "acme"))
      "run-1"
      (some "h")
      plane).1
    ≡ decision_sent granted
unfolding decide_approval approver owned_run tenant_of_run send_and_respond send_approval_decision
    pending_approval respond_to_approval journal_approval outcome_payload_decided_by append validate
    find_row next_position
ana_grants = refl

decide_approval-step_outcome_example :
    (who : Caller) × (some (person "acme") ≡ some who)
    × (st : RunState) × (load false who.tenant "run-1" ""
          (decide_approval turning journalling temporal true
            (some (person "acme"))
            "run-1"
            (some "h")
            plane).0.journal
        ≡ inr st)
    × (step_outcome st "" (approval_step "ap-1")
        ≡ some (outcome_for_approval true, approval_reason journalling.quoted who))
    × (approval_actor st "" (approval_step "ap-1") ≡ (who.id, not (who.id == "")))
decide_approval-step_outcome_example =
    decide_approval-step_outcome turning journalling temporal true (some (person "acme")) "run-1"
      (some "h") plane granted (approval_step "ap-1") 0 turning-KeepsMembers ana_grants refl

abbrev starts : StartRunRequest
starts = record {
  run_id = "run-2";
  graph = some no_members;
  budgets = none;
  agent_manifest_ref = "a@1";
}

version_quarantined :
    (quarantine no_faults no_gaps 8 "acme" "a" "1" "leaks" (released ∷ [])).1
    ≡ inr (with_quarantine "leaks" 8 released)
unfolding quarantine get_agent find_agent is_agent write_agent update_agent read_back
version_quarantined = refl

start_run-quarantine_example :
    start_run temporal "queue" true false (some (person "acme")) (some starts) plane
    ≡ (plane, quarantined_agent "a@1" (some "leaks"))
start_run-quarantine_example =
    start_run-quarantine temporal no_faults 8 "a" "1" "leaks" (released ∷ [])
      (with_quarantine "leaks" 8 released) "queue" (person "acme") starts no_members plane
      version_quarantined refl refl (λ e. ground (arith, eq_iff "acme" "", e))
      (λ e. ground (arith, eq_iff "run-2" "", e)) refl

abbrev said : String → Status
said status = record {
  workflow_id = "graph-run-run-1";
  status = status;
  paused = false;
  pending = none;
  budgets_consumed = none;
  failure = none;
}

abbrev polls : List (ControlError ⊎ Status)
polls = inr (said "RUNNING") ∷ inr (said "RUNNING") ∷ inr (said "SUCCEEDED") ∷ []

two_changes :
    stream_from "" polls
    ≡ (status_event (said "RUNNING") ∷ status_event (said "SUCCEEDED") ∷ [], true)
unfolding stream_from is_terminal
two_changes = refl

not_at_end : is_terminal "" ≡ false
unfolding is_terminal
not_at_end = refl

stream_from-Closes_example : Closes "" polls (stream_from "" polls)
stream_from-Closes_example = stream_from-Closes "" polls not_at_end
