-- ===== src/Gateway/Kept.antt =====
-- A completed execution stays as it is, whatever calls follow.
use aeon_agent_harness.Prelude.{
  String, true, false, Option, none, some, List, [], ◌∷◌, ◌≡◌, refl, arith, Option-cases,
  Bool-cases, Sum-cases, inl, inr, string_comparable, eq_iff, ◌∙◌,
}
use aeon_agent_harness.Json.{Json}
use aeon_agent_harness.Auth.{Caller}
use aeon_agent_harness.Journal.{Jsonb}
use aeon_agent_harness.Policy.Engine.{Cedar, is_allowed}
use aeon_agent_harness.Executions.{
  Execution, ClaimResult, Faults, completed, find_execution, with_result, given_back, claim,
  complete, release, insert_claim, reclaim, new_execution, complete_row, release_row, reclaimed,
  update_execution,
}
use aeon_agent_harness.Executions.Exclusive.{
  KeepsIdentity, is_ours, find_execution-update_other, find_execution-append,
}
use aeon_agent_harness.ToolExec.{door_http_dedupe, run_tool}
use aeon_agent_harness.Gateway.{ToolCallRequest, Deployment, Service, invocation}
use aeon_agent_harness.Gateway.Handlers.{
  replay, refuse, execute_plain, execute_claimed, after_claim, execute_deduplicated,
  execute_decided, execute, engine_of,
}

-- A request to execute, with what it meets. The deployment is the request's own: time passes, faults
-- come and go, and other bundles may be loaded.
pub record ExecuteCall (cedar : Cedar) : Type 0 where
  pub deployment : Deployment cedar
  pub caller : Option Caller
  pub header : String
  pub body : Option ToolCallRequest

module _ (db : Jsonb) (cedar : Cedar) where
  abbrev pub run_execute : ExecuteCall cedar → Service → Service
  run_execute c s = (execute db cedar c.deployment c.caller c.header c.body s).0

  abbrev pub run_executes : List (ExecuteCall cedar) → Service → Service
  run_executes [] s = s
  run_executes (c ∷ calls) s = run_executes calls (run_execute c s)

module _ (tenant key : String) (row : Execution) (v : Json) (done : row.state ≡ completed)
    (has : row.result ≡ some v) where
  abbrev Kept : List Execution → Type 0
  Kept rows = find_execution tenant key rows ≡ some row

  ours-find :
      (t k : String) (rows : List Execution)
      → is_ours tenant key t k ≡ true
      → find_execution t k rows ≡ find_execution tenant key rows
  ours-find t k rows ours = ground (arith, ours, eq_iff t tenant, eq_iff k key)

  Kept-update :
      (set : Execution → Execution) (t k : String) (rows : List Execution)
      → KeepsIdentity set
      → is_ours tenant key t k ≡ false
      → Kept rows
      → Kept (update_execution set t k rows)
  Kept-update set t k rows same other there =
      find_execution-update_other tenant key set t k rows same other ∙ there

  module _ (db : Jsonb) where
    abbrev MayRun : Faults → String → String → String → String → Json → List Execution → Type 0
    MayRun faults t k tool agent args rows =
        let c = claim db faults t k tool agent args rows in
        (c.2 ≡ none) × (c.1.args_diverged ≡ false) × (c.1.completed_result ≡ none)

    -- Any claim leaves the execution as it is, and lets a call run only for another key.
    Kept-claim :
        (faults : Faults) (t k tool agent : String) (args : Json) (rows : List Execution)
        → Kept rows
        → Kept (claim db faults t k tool agent args rows).0
          × (MayRun faults t k tool agent args rows → is_ours tenant key t k ≡ false)
    unfolding claim insert_claim reclaim
    Kept-claim faults t k tool agent args rows there = elim (Bool-cases (is_ours tenant key t k)) [
      | inl ours ↦
          let found : find_execution t k rows ≡ some row = ours-find t k rows ours ∙ there in
          (ground (arith, found, there, done, has), (λ may. ground (arith, found, done, has, may)))
      | inr other ↦ (
        elim (Option-cases (db.stored args)) [
          | inl bad ↦ ground (arith, bad, there)
          | inr (stored, cast) ↦ ground (
            arith,
            cast,
            there,
            other,
            find_execution-append tenant key rows (new_execution t k tool agent stored),
            Kept-update reclaimed t k rows (λ r. (refl, refl)) other there,
          )
        ],
        (λ may. other),
      )
    ]

    module _ (cedar : Cedar) (d : Deployment cedar) where
      Kept-execute_claimed :
          (t : String) (body : ToolCallRequest) (policy_id : String) (c : ClaimResult) (s : Service)
          → is_ours tenant key t body.idempotency_key ≡ false
          → Kept s.executions
          → Kept (execute_claimed db cedar d t body policy_id c s).0.executions
      unfolding execute_claimed release release_row complete complete_row
      Kept-execute_claimed t body policy_id c s other there =
          let k = body.idempotency_key in
          let (w, out, err) =
            run_tool d.recorder_fails d.elapsed d.executor (invocation t body door_http_dedupe)
              s.world in
          elim (Option-cases err) [
            | inr (why, failed) ↦ ground (
              arith,
              failed,
              there,
              Kept-update given_back t k s.executions (λ r. (refl, refl)) other there,
            )
            | inl fine ↦ elim (Option-cases out.result) [
              | inl nothing ↦ ground (arith, fine, nothing, there)
              | inr (j, result) ↦ elim (Option-cases (db.stored j)) [
                | inl bad ↦ ground (arith, fine, result, bad, there)
                | inr (x, cast) ↦ ground (
                  arith,
                  fine,
                  result,
                  cast,
                  there,
                  Kept-update (with_result x) t k s.executions (λ r. (refl, refl)) other there,
                )
              ]
            ]
          ]

      Kept-execute_deduplicated :
          (t : String) (body : ToolCallRequest) (policy_id : String) (s : Service)
          → Kept s.executions
          → Kept (execute_deduplicated db cedar d t body policy_id s).0.executions
      unfolding execute_deduplicated after_claim replay
      Kept-execute_deduplicated t body policy_id s there =
          let c =
            claim db d.faults t body.idempotency_key body.tool_name body.agent_manifest_ref
              body.args s.executions in
          let claimed : Service = record s { executions = c.0 } in
          let (kept, other) =
            Kept-claim d.faults t body.idempotency_key body.tool_name body.agent_manifest_ref
              body.args s.executions there in
          elim (Bool-cases c.1.args_diverged) [
            | inl diverged ↦ ground (arith, diverged, there, kept)
            | inr same ↦ elim (Option-cases c.2) [
              | inr (why, failed) ↦ ground (arith, same, failed, there, kept)
              | inl fine ↦ elim (Option-cases c.1.completed_result) [
                | inr (x, recorded) ↦ ground (arith, same, fine, recorded, there, kept)
                | inl runs ↦ ground (
                  arith,
                  same,
                  fine,
                  runs,
                  there,
                  Kept-execute_claimed t body policy_id c.1 claimed (other (fine, same, runs)) kept,
                )
              ]
            ]
          ]

      Kept-execute :
          (caller : Option Caller) (header : String) (body : Option ToolCallRequest) (s : Service)
          → Kept s.executions
          → Kept (execute db cedar d caller header body s).0.executions
      unfolding execute execute_decided refuse execute_plain
      Kept-execute caller header none s there = there
      Kept-execute none header (some body) s there = there
      Kept-execute (some who) header (some body) s there =
          elim (Sum-cases (engine_of db cedar d (some who) header)) [
            | inl (why, refused) ↦ ground (arith, refused, there)
            | inr ((engine, t), found) ↦
                let decision = is_allowed cedar engine body.agent_manifest_ref body.tool_name in
                ground
                  (arith, found, there, Kept-execute_deduplicated t body decision.policy_id s there)
          ]

    pub Kept-run_executes :
        (cedar : Cedar) (calls : List (ExecuteCall cedar)) (s : Service)
        → Kept s.executions
        → Kept (run_executes db cedar calls s).executions
    Kept-run_executes cedar [] s there = there
    Kept-run_executes cedar (c ∷ calls) s there =
        Kept-run_executes cedar calls (run_execute db cedar c s)
          (Kept-execute cedar c.deployment c.caller c.header c.body s there)
