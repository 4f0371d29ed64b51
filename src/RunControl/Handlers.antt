-- ===== src/RunControl/Handlers.antt =====
-- go/internal/api/run_controller_handlers.go: starting a run, and the routes that read it, stop it
-- or hold it.
use Prim.Native.Char.{code}
use aeon_agent_harness.Prelude.{
  ℕ, String, Bool, ◌||◌, not, Option, none, some, List, ◌⊎◌, inl, inr, if◌then◌else◌, ◌==◌,
  nat_comparable, string_comparable,
}
use aeon_agent_harness.Json.{Members}
use aeon_agent_harness.Auth.{Caller}
use aeon_agent_harness.Finops.{Dollars}
use aeon_agent_harness.Finops.Ledger.{CostRow}
use aeon_agent_harness.Journal.{Row, AppendError}
use aeon_agent_harness.Registry.{AgentRecord, get_agent}
use aeon_agent_harness.RunControl.{Temporal}
use aeon_agent_harness.RunControl.Controller.{
  RunInfo, ControlError, workflow_id, start, cancel, pause, resume, tenant_of_run,
}
use aeon_agent_harness.RunControl.Reports.{Status, status_of}

pub record StartRunRequest : Type 0 where
  pub run_id : String
  pub graph : Option Members
  pub budgets : Option Members
  pub agent_manifest_ref : String

-- What became of the journal entry of a decision.
pub data ApprovalJournalResult : Type 0 where
  no_checkpointer no_approval_id no_payload : ApprovalJournalResult
  not_written : AppendError → ApprovalJournalResult
  journalled : String → ℕ → Bool → ApprovalJournalResult

pub record ApprovalAnswer : Type 0 where
  pub approval_id : String
  pub tool_call_hash : String
  pub outcome : String
  pub decided_by : String
  pub journal : ApprovalJournalResult

pub data ControlResponse : Type 0 where
  bad_body missing_fields unauthenticated no_such_run accepted : ControlResponse
  quarantined_agent : String → Option String → ControlResponse
  may_not_approve : String → ControlResponse
  controller_failed no_status : ControlError → ControlResponse
  created : RunInfo → ControlResponse
  shown : Status → ControlResponse
  decision_sent : ApprovalAnswer → ControlResponse

-- The status that each answer is written with.
unfoldable pub control_status : ControlResponse → ℕ
control_status bad_body = 400
control_status missing_fields = 400
control_status unauthenticated = 401
control_status no_such_run = 404
control_status accepted = 202
control_status (quarantined_agent _ _) = 403
control_status (may_not_approve _) = 403
control_status (controller_failed _) = 500
control_status (no_status _) = 404
control_status (created _) = 201
control_status (shown _) = 200
control_status (decision_sent _) = 202

-- callerTenantOrEmpty
abbrev pub caller_tenant_or_empty : Option Caller → String
caller_tenant_or_empty none = ""
caller_tenant_or_empty (some caller) = caller.tenant

-- strings.Cut at the first @; `none` where there is none.
abbrev pub at_first : String → Option (String × String)
at_first String.[] = none
at_first (String.◌∷◌ c s) =
    let rest = at_first s in
    if code c == b'@'
    then some ("", s)
    else elim rest [ none ↦ none | some (name, version) ↦ some (String.◌∷◌ c name, version) ]

-- registryForCaller: the tenant whose registry is asked, if one is.
unfoldable pub registry_for_caller : Bool → Option Caller → Option String
registry_for_caller has_registry caller =
    let tenant = caller_tenant_or_empty caller in
    if not has_registry || tenant == "" then none else some tenant

abbrev pub quarantine_of : AgentRecord → Option (Option String)
quarantine_of a = if a.quarantined then some a.quarantine_reason else none

-- checkNotQuarantined: the reason of the quarantine that refuses the start. `fails` is whether the
-- registry's query fails, which refuses nothing.
unfoldable pub check_not_quarantined :
    Bool → Option String → String → List AgentRecord → Option (Option String)
check_not_quarantined fails none ref agents = none
check_not_quarantined fails (some tenant) ref agents =
    if ref == "" then none else elim (at_first ref) [
      | none ↦ none
      | some (name, version) ↦ elim (get_agent fails tenant name version agents) [
        | inl why ↦ none
        | inr a ↦ quarantine_of a
      ]
    ]

-- What a request finds, and leaves behind.
pub record Plane (tp : Temporal) : Type 0 where
  pub world : tp.World
  pub journal : List Row
  pub agents : List AgentRecord

module _ (tp : Temporal) where
  -- ownedRun
  unfoldable pub owned_run : Option Caller → String → Plane tp → ControlResponse ⊎ String
  owned_run none run_id p = inl unauthenticated
  owned_run (some caller) run_id p =
      let wf = workflow_id run_id in
      elim (tenant_of_run tp wf p.world) [
        | inl why ↦ inl no_such_run
        | inr owner ↦ if not (owner == caller.tenant) then inl no_such_run else inr wf
      ]

  abbrev start_answer : ControlError ⊎ RunInfo → ControlResponse
  start_answer (inl why) = controller_failed why
  start_answer (inr info) = created info

  -- The start of a run whose request is complete.
  unfoldable pub start_checked :
      String
      → Bool
      → Bool
      → Option Caller
      → StartRunRequest
      → Members
      → Plane tp
      → Plane tp × ControlResponse
  start_checked task_queue has_registry fails caller body graph p =
      elim (check_not_quarantined fails (registry_for_caller has_registry caller)
        body.agent_manifest_ref p.agents) [
          | some reason ↦ (p, quarantined_agent body.agent_manifest_ref reason)
          | none ↦
              let (w, answer) =
                start tp task_queue body.run_id graph body.budgets body.agent_manifest_ref
                  (caller_tenant_or_empty caller) p.world in
              (record p { world = w }, start_answer answer)
        ]

  -- The handler of POST /runs; `none` is a body that is not decoded.
  unfoldable pub start_run :
      String
      → Bool
      → Bool
      → Option Caller
      → Option StartRunRequest
      → Plane tp
      → Plane tp × ControlResponse
  start_run task_queue has_registry fails caller none p = (p, bad_body)
  start_run task_queue has_registry fails caller (some body) p = elim body.graph [
    | none ↦ (p, missing_fields)
    | some graph ↦
        if body.run_id == ""
        then (p, missing_fields)
        else start_checked task_queue has_registry fails caller body graph p
  ]

  -- A route that only asks Temporal to do something.
  abbrev passed_on :
      (String → tp.World → tp.World × Bool)
      → Option Caller
      → String
      → Plane tp
      → ControlError
      → Plane tp × ControlResponse
  passed_on act caller run_id p why = elim (owned_run caller run_id p) [
    | inl refusal ↦ (p, refusal)
    | inr wf ↦
        let (w, fine) = act wf p.world in
        (record p { world = w }, if fine then accepted else controller_failed why)
  ]

  unfoldable pub cancel_run : Option Caller → String → Plane tp → Plane tp × ControlResponse
  cancel_run caller run_id p = passed_on (cancel tp) caller run_id p ControlError.not_cancelled

  unfoldable pub pause_run : Option Caller → String → Plane tp → Plane tp × ControlResponse
  pause_run caller run_id p = passed_on (pause tp) caller run_id p ControlError.not_signalled

  unfoldable pub resume_run : Option Caller → String → Plane tp → Plane tp × ControlResponse
  resume_run caller run_id p = passed_on (resume tp) caller run_id p ControlError.not_signalled

  -- The handler of GET /runs/{run_id}; the ledger is as for `status_of`.
  module _ (fl : Dollars) (no_cost : fl.Float) (print : fl.Float → String) where
    abbrev status_answer : ControlError ⊎ Status → ControlResponse
    status_answer (inl why) = no_status why
    status_answer (inr s) = shown s

    unfoldable pub run_status :
        Bool → Option (List (CostRow fl)) → Option Caller → String → Plane tp → ControlResponse
    run_status fails costs caller run_id p = elim (owned_run caller run_id p) [
      | inl refusal ↦ refusal
      | inr wf ↦
          status_answer
            (status_of tp fl no_cost print fails wf (caller_tenant_or_empty caller) costs p.world)
    ]

-- isTerminal
unfoldable pub is_terminal : String → Bool
is_terminal status = status == "SUCCEEDED" || (status == "FAILED" || status == "CANCELLED")
