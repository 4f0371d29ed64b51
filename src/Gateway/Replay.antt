-- ===== src/Gateway/Replay.antt =====
-- What a second call with the same idempotency key is answered.
use mathlib.Core.Path.{subst}
use aeon_agent_harness.Prelude.{
  String, Bool, true, false, ◌&&◌, not, none, some, List, ◌≡◌, refl, arith, if◌then◌else◌, ◌==◌,
  Option-cases, inl, inr, sym, ◌∙◌, ap, string_comparable,
}
use aeon_agent_harness.Json.{Json}
use aeon_agent_harness.Journal.{Jsonb, not_distinct}
use aeon_agent_harness.Policy.Engine.{Cedar}
use aeon_agent_harness.Executions.{
  Execution, ClaimResult, find_execution, with_result, claim, complete,
}
use aeon_agent_harness.Executions.Claims.{
  HasRow, claim-HasRow, claim-completed, find_execution-complete,
}
use aeon_agent_harness.Gateway.Kept.{ExecuteCall, run_executes, Kept-run_executes}
use aeon_agent_harness.ToolExec.{door_http_dedupe, run_tool, record_replay, record_row}
use aeon_agent_harness.Gateway.{
  ToolCallRequest, Deployment, Service, Response, Executed, executed, replayed, bad_recording,
  invocation, is_map,
}
use aeon_agent_harness.Gateway.Handlers.{replay, execute_claimed, after_claim, execute_deduplicated}

module _ (db : Jsonb) (cedar : Cedar) where
  -- The key's row holds the result.
  abbrev pub Recorded : String → ToolCallRequest → Json → List Execution → Type 0
  Recorded tenant body v rows =
      (stored : Json) × (db.stored body.args ≡ some stored)
      × (row : Execution) × (find_execution tenant body.idempotency_key rows
          ≡ some (with_result v row))
      × (not_distinct db row.args (some stored) ≡ true)

  execute_claimed-Recorded :
      (d : Deployment cedar) (tenant : String) (body : ToolCallRequest) (policy_id : String)
      (c : ClaimResult) (s : Service) (x : Executed)
      → HasRow db tenant body.idempotency_key body.args s.executions
      → (execute_claimed db cedar d tenant body policy_id c s).1 ≡ executed x
      → x.unprotected ≡ false
      → (j : Json) × (v : Json) × (x.result ≡ some j)
        × (db.stored j ≡ some v)
        × Recorded tenant body v (execute_claimed db cedar d tenant body policy_id c s).0.executions
  unfolding execute_claimed
  execute_claimed-Recorded d tenant body policy_id c s x (stored, cast, row, there, same) h safe =
      let (w, out, err) =
        run_tool d.recorder_fails d.elapsed d.executor (invocation tenant body door_http_dedupe)
          s.world in
      elim (Option-cases err) [
        | inr (why, bad) ↦ absurd (ground (arith, bad, h))
        | inl good ↦
            let done : (complete db d.faults tenant body.idempotency_key out.result s.executions).1
                ≡ false =
              ground (arith, good, h, safe) in
            let (j, v, is, kept, found) =
              find_execution-complete db tenant body.idempotency_key body.args d.faults s.executions
                out.result row done there in
            (
              j,
              v,
              ground (arith, good, h, is),
              kept,
              (stored, cast, row, ground (arith, good, found), same),
            )
      ]

  -- A claim that lets the call run.
  abbrev MayRun : Deployment cedar → String → ToolCallRequest → Service → Type 0
  MayRun d tenant body s =
      let c =
        claim db d.faults tenant body.idempotency_key body.tool_name body.agent_manifest_ref
          body.args s.executions in
      (c.2 ≡ none) × (c.1.args_diverged ≡ false) × (c.1.completed_result ≡ none)

  executed-MayRun :
      (d : Deployment cedar) (tenant : String) (body : ToolCallRequest) (policy_id : String)
      (s : Service) (x : Executed)
      → (execute_deduplicated db cedar d tenant body policy_id s).1 ≡ executed x
      → MayRun d tenant body s
        × (execute_deduplicated db cedar d tenant body policy_id s ≡ (
            let c =
              claim db d.faults tenant body.idempotency_key body.tool_name body.agent_manifest_ref
                body.args s.executions in
            execute_claimed db cedar d tenant body policy_id c.1 (record s { executions = c.0 })))
  unfolding execute_deduplicated after_claim replay
  executed-MayRun d tenant body policy_id s x h = ground (arith, h)

  -- The second answer: the recorded result, and no tool ran.
  abbrev pub Replays :
      String → ToolCallRequest → Json → String → Service → Service × Response → Type 0
  Replays tenant body v policy_id s answer =
      (answer.0.world.ran ≡ s.world.ran)
      × (answer.0.executions ≡ s.executions)
      × (flag : Bool) × (answer.1 ≡ (if is_map v then replayed policy_id v flag else bad_recording))

  Replays-Recorded :
      (d : Deployment cedar) (tenant : String) (body : ToolCallRequest) (policy_id : String)
      (s : Service) (v : Json)
      → d.has_executions ≡ true
      → d.faults.on_insert ≡ false
      → d.faults.on_select ≡ false
      → (body.idempotency_key == "") ≡ false
      → Recorded tenant body v s.executions
      → Replays tenant body v policy_id s (execute_deduplicated db cedar d tenant body policy_id s)
  unfolding execute_deduplicated after_claim replay record_replay record_row
  Replays-Recorded d tenant body policy_id s v has f g named (stored, cast, row, there, same) =
      let found =
        claim-completed db tenant body.idempotency_key body.args d.faults body.tool_name
          body.agent_manifest_ref s.executions stored v (with_result v row) named f g cast there
          refl refl same in
      (
        ground (arith, found, has),
        ground (arith, found, has),
        d.executor.has_recorder && not d.recorder_fails,
        ground (arith, found, has),
      )

  Recorded-run_executes :
      (tenant : String) (body : ToolCallRequest) (v : Json) (calls : List (ExecuteCall cedar))
      (s : Service)
      → Recorded tenant body v s.executions
      → Recorded tenant body v (run_executes db cedar calls s).executions
  Recorded-run_executes tenant body v calls s (stored, cast, row, there, same) = (
    stored,
    cast,
    row,
    Kept-run_executes tenant body.idempotency_key (with_result v row) v refl refl db cedar calls s
        there,
    same,
  )

  -- A call with an idempotency key that was executed, and whose result was recorded, is not executed
  -- again: after any other requests to execute, of any callers and with whatever faults, the same
  -- call runs no tool, leaves the table as it is, and is answered with the result as Postgres stored
  -- it; a result that is no object is answered as a bad recording. This is for requests that are
  -- served one after the other, and where the database answers the second call.
  pub execute_deduplicated_again :
      (d later : Deployment cedar) (tenant : String) (body : ToolCallRequest)
      (policy_id policy_id' : String) (s : Service) (calls : List (ExecuteCall cedar))
      (x : Executed)
      → (execute_deduplicated db cedar d tenant body policy_id s).1 ≡ executed x
      → x.unprotected ≡ false
      → later.has_executions ≡ true
      → later.faults.on_insert ≡ false
      → later.faults.on_select ≡ false
      → let s' =
          run_executes db cedar calls (execute_deduplicated db cedar d tenant body policy_id s).0 in
        (j : Json) × (v : Json) × (x.result ≡ some j)
        × (db.stored j ≡ some v)
        × Replays tenant body v policy_id' s'
            (execute_deduplicated db cedar later tenant body policy_id' s')
  execute_deduplicated_again d later tenant body policy_id policy_id' s calls x h safe has f g =
      let ((fine, same, _), is) = executed-MayRun d tenant body policy_id s x h in
      let (there, named) =
        claim-HasRow db tenant body.idempotency_key body.args d.faults body.tool_name
          body.agent_manifest_ref s.executions fine same in
      let c =
        claim db d.faults tenant body.idempotency_key body.tool_name body.agent_manifest_ref
          body.args s.executions in
      let claimed : Service = record s { executions = c.0 } in
      let (j, v, result, kept, recorded) =
        execute_claimed-Recorded d tenant body policy_id c.1 claimed x there
          (sym (ap (λ a. a.1) is) ∙ h) safe in
      let after = (execute_deduplicated db cedar d tenant body policy_id s).0 in
      (
        j,
        v,
        result,
        kept,
        Replays-Recorded later tenant body policy_id' (run_executes db cedar calls after) v has f g
            named
            (Recorded-run_executes tenant body v calls after
              (subst (λ a. Recorded tenant body v a.0.executions) (sym is) recorded)),
      )
