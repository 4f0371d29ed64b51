-- ===== src/Gateway/Diverged.antt =====
-- What other arguments do to a key that a failed execution gave back.
use aeon_agent_harness.Prelude.{
  String, true, false, some, ◌≡◌, refl, arith, ◌==◌, ==_refl, string_comparable, ap, sym, ◌∙◌,
}
use aeon_agent_harness.Json.{Json}
use aeon_agent_harness.Journal.{Jsonb, not_distinct}
use aeon_agent_harness.Policy.Engine.{Cedar}
use aeon_agent_harness.Executions.{
  Execution, released, in_flight, find_execution, reclaimed, claim, insert_claim, reclaim,
}
use aeon_agent_harness.Executions.Exclusive.{find_execution-update_execution}
use aeon_agent_harness.Gateway.{
  ToolCallRequest, Deployment, Service, args_diverged, in_flight_elsewhere,
}
use aeon_agent_harness.Gateway.Handlers.{after_claim, execute_deduplicated}

module _ (db : Jsonb) (cedar : Cedar) where
  -- A deployment that deduplicates, with a database that answers.
  abbrev pub Answers : Deployment cedar → Type 0
  Answers d =
      (d.has_executions ≡ true)
      × (d.faults.on_insert ≡ false)
      × (d.faults.on_select ≡ false)
      × (d.faults.on_reclaim ≡ false)

  -- A call with other arguments on a released key is refused as diverging, and still takes the key:
  -- the row is in flight afterwards.
  execute_deduplicated-reclaims :
      (d : Deployment cedar) (tenant : String) (body : ToolCallRequest) (policy_id : String)
      (s : Service) (row : Execution) (stored : Json)
      → Answers d
      → (body.idempotency_key == "") ≡ false
      → db.stored body.args ≡ some stored
      → find_execution tenant body.idempotency_key s.executions ≡ some row
      → row.state ≡ released
      → not_distinct db row.args (some stored) ≡ false
      → ((execute_deduplicated db cedar d tenant body policy_id s).1 ≡ args_diverged)
        × (find_execution tenant body.idempotency_key
              (execute_deduplicated db cedar d tenant body policy_id s).0.executions
            ≡ some (reclaimed row))
  unfolding execute_deduplicated after_claim claim insert_claim reclaim
  execute_deduplicated-reclaims d tenant body policy_id s row stored (a, b, c, e) named cast there
        is other =
      (
        ground (arith, a, b, c, e, named, cast, there, is, other),
        ground (
          arith,
          a,
          b,
          c,
          e,
          named,
          cast,
          there,
          is,
          other,
          find_execution-update_execution tenant body.idempotency_key reclaimed tenant
              body.idempotency_key s.executions (λ r. (refl, refl))
              (ground (arith, ==_refl tenant, ==_refl body.idempotency_key)),
        ),
      )

  -- A call on a key in flight, with the arguments of its row, is told to come back later.
  execute_deduplicated-waits :
      (d : Deployment cedar) (tenant : String) (body : ToolCallRequest) (policy_id : String)
      (s : Service) (row : Execution) (stored : Json)
      → Answers d
      → (body.idempotency_key == "") ≡ false
      → db.stored body.args ≡ some stored
      → find_execution tenant body.idempotency_key s.executions ≡ some row
      → row.state ≡ in_flight
      → not_distinct db row.args (some stored) ≡ true
      → execute_deduplicated db cedar d tenant body policy_id s ≡ (s, in_flight_elsewhere)
  unfolding execute_deduplicated after_claim claim insert_claim reclaim
  execute_deduplicated-waits d tenant body policy_id s row stored (a, b, c, e) named cast there is
        same =
      ground (arith, a, b, c, e, named, cast, there, is, same)

  -- A call with other arguments on a key that a failed execution released locks the key: the call is
  -- refused as diverging and leaves the row in flight, so that the call with the original arguments,
  -- which had been free to retry, is told that an execution is in flight.
  pub execute_deduplicated_diverged :
      (d later : Deployment cedar) (tenant : String) (wrong body : ToolCallRequest)
      (policy_id policy_id' : String) (s : Service) (row : Execution) (stored own : Json)
      → Answers d
      → Answers later
      → (body.idempotency_key == "") ≡ false
      → wrong.idempotency_key ≡ body.idempotency_key
      → db.stored wrong.args ≡ some stored
      → db.stored body.args ≡ some own
      → find_execution tenant wrong.idempotency_key s.executions ≡ some row
      → row.state ≡ released
      → not_distinct db row.args (some stored) ≡ false
      → not_distinct db row.args (some own) ≡ true
      → ((execute_deduplicated db cedar d tenant wrong policy_id s).1 ≡ args_diverged)
        × (execute_deduplicated db cedar later tenant body policy_id'
              (execute_deduplicated db cedar d tenant wrong policy_id s).0
            ≡ ((execute_deduplicated db cedar d tenant wrong policy_id s).0, in_flight_elsewhere))
  execute_deduplicated_diverged d later tenant wrong body policy_id policy_id' s row stored own up
        up' named key cast cast' there is other same =
      let (answer, locked) =
        execute_deduplicated-reclaims d tenant wrong policy_id s row stored up
          (ap (λ k. k == "") key ∙ named) cast there is other in
      (
        answer,
        execute_deduplicated-waits later tenant body policy_id'
            (execute_deduplicated db cedar d tenant wrong policy_id s).0 (reclaimed row) own up'
            named cast'
            (ap
                (λ k.
                  find_execution tenant k
                    (execute_deduplicated db cedar d tenant wrong policy_id s).0.executions)
                (sym key)
              ∙ locked)
            refl same,
      )
