-- ===== src/Examples/Gateways.antt =====
-- A gateway of one tenant with one tool, which answers with an empty object.
use aeon_agent_harness.Prelude.{
  String, true, false, none, some, List, [], ◌∷◌, ◌≡◌, refl, inr, ◌⊎◌, if◌then◌else◌,
  string_comparable,
}
use aeon_agent_harness.Prelude.Dict.{lookup}
use aeon_agent_harness.Json.{Json, text, object, member, no_members}
use aeon_agent_harness.Checkpoint.{validate}
use aeon_agent_harness.Checkpoint.State.{RunState}
use aeon_agent_harness.Checkpoint.Outcome.{step_outcome, outcome_denied_by_policy, outcome_payload}
use aeon_agent_harness.Journal.{load, append, find_row, next_position}
use aeon_agent_harness.Policy.{deny_step}
use aeon_agent_harness.Policy.Engine.{Engine, Decision}
use aeon_agent_harness.Auth.{Caller, service}
use aeon_agent_harness.Executions.{
  Faults, find_execution, released, claim, insert_claim, complete, complete_row, new_execution,
}
use aeon_agent_harness.Executions.Holders.{
  Situation, inserts, stay, then_step, Steps-Exclusive, Exclusive,
}
use aeon_agent_harness.ToolExec.{Executor, Invocation, World, run_tool, record_row, record_refusal}
use aeon_agent_harness.Gateway.{
  ToolCallRequest, Deployment, Service, Response, Executed, Denial, executed, denied, journalled,
  args_diverged, in_flight_elsewhere, denial_reason, disposition_outcome,
}
use aeon_agent_harness.Gateway.Handlers.{
  execute, execute_deduplicated, after_claim, execute_claimed, refuse, journal_denial,
  journal_outcome,
}
use aeon_agent_harness.Gateway.Gate.{Permitted, RanByDoor, ran-execute}
use aeon_agent_harness.Gateway.Kept.{ExecuteCall, run_executes}
use aeon_agent_harness.Gateway.Replay.{Replays, execute_deduplicated_again}
use aeon_agent_harness.Gateway.Refusal.{refuse-step_outcome}
use aeon_agent_harness.Gateway.Diverged.{execute_deduplicated_diverged}
use aeon_agent_harness.Examples.Database.{turning, turning-KeepsMembers, db, json_same}
use aeon_agent_harness.Examples.Policies.{effects}

abbrev arguments : String → Json
arguments q = object (member "q" (text q) no_members)

abbrev nothing_fails : Faults
nothing_fails = record {
  on_insert = false;
  on_select = false;
  on_reclaim = false;
  on_complete = false;
  on_release = false;
}

abbrev tools : Executor
tools = record {
  fns = ("read", λ tenant args. record { result = some (object no_members); error = none }) ∷ [];
  has_recorder = true;
}

abbrev permissive : Engine effects
permissive = record { policy_set = ("all", "permit") ∷ []; dispositions = [] }

abbrev gateway : Deployment effects
gateway = record {
  policies = some (("acme", permissive) ∷ []);
  executor = tools;
  has_executions = true;
  has_checkpointer = true;
  faults = nothing_fails;
  journal_fault = none;
  recorder_fails = false;
  now = 9;
  elapsed = 3;
}

abbrev worker : Caller
worker = record {
  id = "worker";
  kind = service;
  token_sha256 = "";
  may_act_as = "agent" ∷ [];
  may_approve = false;
  tenant = "acme";
  may_act_for_tenants = [];
}

abbrev call : String → String → ToolCallRequest
call key q = record {
  agent_manifest_ref = "agent";
  tool_name = "read";
  args = arguments q;
  idempotency_key = key;
  run_id = "run-1";
  step_id = "s1";
}

abbrev idle : World
idle = record { ran = []; audit = [] }

abbrev empty : Service
empty = record { executions = []; journal = []; world = idle }

abbrev ran_after : List Invocation
ran_after = (execute db effects gateway (some worker) "" (some (call "" "x")) empty).0.world.ran

ran-execute_example :
    (ran_after ≡ [])
    ⊎ ((tenant : String) × Permitted db effects gateway (some worker) "" (call "" "x") tenant
        × RanByDoor db effects gateway tenant (call "" "x") [] ran_after)
ran-execute_example = ran-execute db effects gateway (some worker) "" (call "" "x") empty

abbrev result : Executed
result = record {
  policy_id = "all";
  result = some (object no_members);
  recorded = some true;
  failed_attempts = some 0;
  unprotected = false;
}

first_executes :
    (execute_deduplicated db effects gateway "acme" (call "k" "x") "all" empty).1 ≡ executed result
unfolding execute_deduplicated after_claim execute_claimed claim insert_claim find_execution
    complete complete_row run_tool record_row lookup
first_executes = refl

abbrev once : Service
once = (execute_deduplicated db effects gateway "acme" (call "k" "x") "all" empty).0

-- Another call, and a request without a caller.
abbrev others : List (ExecuteCall effects)
others =
    record { deployment = gateway; caller = none; header = ""; body = some (call "k" "x") }
    ∷ record {
      deployment = gateway;
      caller = some worker;
      header = "acme";
      body = some (call "j" "y");
    }
    ∷ []

abbrev once_and_others : Service
once_and_others = run_executes db effects others once

execute_deduplicated_again_example :
    (j : Json) × (v : Json) × (some (object no_members) ≡ some j)
    × (some j ≡ some v)
    × Replays db effects "acme"
        (call "k" "x")
        v
        "all"
        once_and_others
        (execute_deduplicated db effects gateway "acme" (call "k" "x") "all" once_and_others)
execute_deduplicated_again_example =
    execute_deduplicated_again db effects gateway gateway "acme" (call "k" "x") "all" "all" empty
      others result first_executes refl refl refl refl

abbrev given_up : Service
given_up = record {
  executions =
      (record (new_execution "acme" "k" "read" "agent" (arguments "x")) {
        state = released;
        failed_attempts = 1;
      })
      ∷ [];
  journal = [];
  world = idle;
}

abbrev diverged : Service × Response
diverged = execute_deduplicated db effects gateway "acme" (call "k" "y") "all" given_up

execute_deduplicated_diverged_example :
    (diverged.1 ≡ args_diverged)
    × (execute_deduplicated db effects gateway "acme" (call "k" "x") "all" diverged.0
        ≡ (diverged.0, in_flight_elsewhere))
execute_deduplicated_diverged_example =
    execute_deduplicated_diverged db effects gateway gateway "acme" (call "k" "y") (call "k" "x")
      "all" "all" given_up
      (record (new_execution "acme" "k" "read" "agent" (arguments "x")) {
        state = released;
        failed_attempts = 1;
      })
      (arguments "y") (arguments "x") (refl, refl, refl, refl) (refl, refl, refl, refl) refl refl
      refl refl (unfold find_execution in refl) refl (unfold json_same in refl)
      (unfold json_same in refl)

abbrev forbidden : Decision
forbidden = record {
  allowed = false;
  policy_id = "no";
  cedar_allows = false;
  disposition = deny_step;
  disposition_declared = false;
}

abbrev denial : Denial
denial = record {
  outcome = some outcome_denied_by_policy;
  journal = journalled 0 false;
  disposition = deny_step;
  disposition_declared = false;
  policy_id = "no";
  recorded = true;
}

refusal_journalled :
    (refuse turning effects gateway "acme" (call "" "x") forbidden empty).1 ≡ denied denial
unfolding refuse disposition_outcome journal_outcome record_refusal journal_denial record_row
    outcome_payload append validate find_row next_position
refusal_journalled = refl

refuse-step_outcome_example :
    (st : RunState) × (load false "acme" "run-1" ""
        (refuse turning effects gateway "acme" (call "" "x") forbidden empty).0.journal
      ≡ inr st)
    × (step_outcome st "" "s1" ≡ some (outcome_denied_by_policy, denial_reason forbidden))
refuse-step_outcome_example =
    refuse-step_outcome turning effects gateway "acme" (call "" "x") forbidden empty denial 0
      turning-KeepsMembers refusal_journalled refl

abbrev nobody : Situation
nobody = record { rows = []; holders = 0 }

abbrev one_claims : Situation
one_claims = record {
  rows = (insert_claim "acme" "k" "read" "agent" (arguments "x") []).0;
  holders = if (insert_claim "acme" "k" "read" "agent" (arguments "x") []).1 then 1 else 0;
}

Steps-Exclusive_example : Exclusive "acme" "k" one_claims
Steps-Exclusive_example =
    Steps-Exclusive "acme" "k" [] one_claims
      (then_step (stay nobody) (inserts nobody "acme" "k" "read" "agent" (arguments "x")))
