-- ===== src/Gateway/Gate.antt =====
-- The gate of the tool gateway: which requests let a tool run.
use aeon_agent_harness.Prelude.{
  ℕ, String, Bool, true, Option, none, some, List, [], ◌∷◌, ◌++◌, ◌⊎◌, inl, inr, ◌≡◌, refl, arith,
  string_comparable, Option-cases, Sum-cases, Bool-cases,
}
use aeon_agent_harness.Prelude.Dict.{lookup}
use aeon_agent_harness.Json.{Json}
use aeon_agent_harness.Journal.{Jsonb}
use aeon_agent_harness.Policy.Engine.{Cedar, Engine, Decision, is_allowed}
use aeon_agent_harness.Policy.TenantSet.{engine_for}
use aeon_agent_harness.Auth.{Caller, acts_as}
use aeon_agent_harness.Executions.{ClaimResult, ClaimError, claim}
use aeon_agent_harness.ToolExec.{
  Invocation, InvocationRecord, Executor, World, door_http, door_http_dedupe, record_row,
  record_refusal, record_replay, run_tool,
}
use aeon_agent_harness.Gateway.{ToolCallRequest, Deployment, Service, effective_tenant, invocation}
use aeon_agent_harness.Gateway.Handlers.{
  refuse, replay, execute_claimed, after_claim, execute_deduplicated, execute_plain,
  execute_decided, engine_of, execute,
}

ran-record_row :
    (fails : Bool) (e : Executor) (row : InvocationRecord) (w : World)
    → (record_row fails e row w).0.ran ≡ w.ran
unfolding record_row
ran-record_row fails e row w = ground arith

-- The call ran, or nothing did.
abbrev pub RanOrNot : Invocation → List Invocation → List Invocation → Type 0
RanOrNot inv before after = (after ≡ before) ⊎ (after ≡ before ++ inv ∷ [])

ran-run_tool :
    (fails : Bool) (elapsed : ℕ) (e : Executor) (inv : Invocation) (w : World)
    → RanOrNot inv w.ran (run_tool fails elapsed e inv w).0.ran
unfolding run_tool record_row
ran-run_tool fails elapsed e inv w = elim (Option-cases (lookup inv.tool_name e.fns)) [
  | inl missing ↦ inl (ground (arith, missing))
  | inr (fn, there) ↦ inr (ground (arith, there))
]

module _ (db : Jsonb) (cedar : Cedar) (d : Deployment cedar) where
  pub ran-refuse :
      (tenant : String) (body : ToolCallRequest) (decision : Decision) (s : Service)
      → (refuse db cedar d tenant body decision s).0.world.ran ≡ s.world.ran
  unfolding refuse record_refusal record_row
  ran-refuse tenant body decision s = ground arith

  ran-replay :
      (tenant : String) (body : ToolCallRequest) (policy_id : String) (j : Json) (s : Service)
      → (replay db cedar d tenant body policy_id j s).0.world.ran ≡ s.world.ran
  unfolding replay record_replay record_row
  ran-replay tenant body policy_id j s = ground arith

  ran-execute_claimed :
      (tenant : String) (body : ToolCallRequest) (policy_id : String) (c : ClaimResult)
      (s : Service)
      → RanOrNot
          (invocation tenant body door_http_dedupe)
          s.world.ran
          (execute_claimed db cedar d tenant body policy_id c s).0.world.ran
  unfolding execute_claimed
  ran-execute_claimed tenant body policy_id c s = ground (
    arith,
    ran-run_tool d.recorder_fails d.elapsed d.executor (invocation tenant body door_http_dedupe)
        s.world,
  )

  ran-after_claim :
      (tenant : String) (body : ToolCallRequest) (policy_id : String) (c : ClaimResult)
      (err : Option ClaimError) (s : Service)
      → RanOrNot
          (invocation tenant body door_http_dedupe)
          s.world.ran
          (after_claim db cedar d tenant body policy_id c err s).0.world.ran
  unfolding after_claim
  ran-after_claim tenant body policy_id c err s = elim (Option-cases c.completed_result) [
    | inl nothing ↦ ground (arith, nothing, ran-execute_claimed tenant body policy_id c s)
    | inr (j, there) ↦ ground (arith, there, ran-replay tenant body policy_id j s)
  ]

  -- One of the two doors.
  abbrev pub RanByDoor : String → ToolCallRequest → List Invocation → List Invocation → Type 0
  RanByDoor tenant body before after =
      (after ≡ before ++ invocation tenant body door_http ∷ [])
      ⊎ (after ≡ before ++ invocation tenant body door_http_dedupe ∷ [])

  ran-execute_decided :
      (tenant : String) (body : ToolCallRequest) (decision : Decision) (s : Service)
      → ((execute_decided db cedar d tenant body decision s).0.world.ran ≡ s.world.ran)
        ⊎ ((decision.allowed ≡ true)
            × RanByDoor tenant body s.world.ran
                (execute_decided db cedar d tenant body decision s).0.world.ran)
  unfolding execute_decided execute_deduplicated execute_plain
  ran-execute_decided tenant body decision s =
      let claimed =
        claim db d.faults tenant body.idempotency_key body.tool_name body.agent_manifest_ref
          body.args s.executions in
      ground (
        arith,
        ran-refuse tenant body decision s,
        ran-after_claim tenant body decision.policy_id claimed.1 claimed.2
            (record s { executions = claimed.0 }),
        ran-run_tool d.recorder_fails d.elapsed d.executor (invocation tenant body door_http)
            s.world,
      )

  -- What stands behind a run: an authenticated caller that may present the agent, the tenant that
  -- the request is entitled to, that tenant's own engine, and its decision.
  abbrev pub Permitted : Option Caller → String → ToolCallRequest → String → Type 0
  Permitted caller header body tenant =
      (who : Caller) × (caller ≡ some who)
      × (acts_as who body.agent_manifest_ref ≡ true)
      × (effective_tenant caller header ≡ inr tenant)
      × (engine : Engine cedar) × (engine_for cedar d.policies tenant ≡ some engine)
      × ((is_allowed cedar engine body.agent_manifest_ref body.tool_name).allowed ≡ true)

  -- Whatever fails, a request to execute runs no tool, or runs exactly one, the requested one, for
  -- the tenant that the request is entitled to, for an authenticated caller that may present the
  -- agent, and with the permission of that tenant's own engine.
  pub ran-execute :
      (caller : Option Caller) (header : String) (body : ToolCallRequest) (s : Service)
      → ((execute db cedar d caller header (some body) s).0.world.ran ≡ s.world.ran)
        ⊎ ((tenant : String) × Permitted caller header body tenant
            × RanByDoor tenant body s.world.ran
                (execute db cedar d caller header (some body) s).0.world.ran)
  unfolding execute engine_of
  ran-execute none header body s = inl refl
  ran-execute (some who) header body s = elim (Bool-cases (acts_as who body.agent_manifest_ref)) [
    | inr stranger ↦ inl (ground (arith, stranger))
    | inl known ↦ elim (Sum-cases (effective_tenant (some who) header)) [
      | inl (why, refused) ↦ inl (ground (arith, known, refused))
      | inr (tenant, entitled) ↦ elim (Option-cases (engine_for cedar d.policies tenant)) [
        | inl missing ↦ inl (ground (arith, known, entitled, missing))
        | inr (engine, there) ↦
            let decision = is_allowed cedar engine body.agent_manifest_ref body.tool_name in
            elim (ran-execute_decided tenant body decision s) [
              | inl same ↦ inl (ground (arith, known, entitled, there, same))
              | inr (may, ran) ↦ inr (
                tenant,
                (who, refl, known, entitled, engine, there, may),
                ground (arith, known, entitled, there, ran),
              )
            ]
      ]
    ]
  ]
