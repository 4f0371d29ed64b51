-- ===== src/DecideRoute/Route.antt =====
-- go/internal/api/model_gateway_handlers.go: POST /decide.
use aeon_agent_harness.Prelude.{
  ℕ, String, Bool, true, false, not, Option, none, some, List, [], ◌∷◌, ◌⊎◌, inl, inr, map,
  if◌then◌else◌,
}
use aeon_agent_harness.Prelude.Int.{ℤ}
use aeon_agent_harness.Json.{Members}
use aeon_agent_harness.Auth.{Caller}
use aeon_agent_harness.Finops.{Dollars}
use aeon_agent_harness.Throttled.{Throttled, soonest_retry, throttles_of}
use aeon_agent_harness.ModelGateway.{
  Candidate, AttemptRecord, DecisionResult, DecideError, no_restricted_candidate,
  all_candidates_failed,
}
use aeon_agent_harness.ModelGateway.Routing.{Gateway, Sorting, decide, causes}
use aeon_agent_harness.DecideRoute.{Numerals, Books, Setup}
use aeon_agent_harness.DecideRoute.Usage.{tenant_of}
use aeon_agent_harness.DecideRoute.Costs.{
  CostFacts, ledger_for, record_cost, record_discarded_attempts, cost_facts,
}
use aeon_agent_harness.DecideRoute.Budget.{Refusal, over_budget}

pub record DecideCandidate : Type 0 where
  pub provider : String
  pub model : String
  pub priority : ℤ

pub record DecideRequest : Type 0 where
  pub candidates : List DecideCandidate
  pub rendered_context : Members
  pub data_sensitivity : String
  pub run_id : String
  pub agent_manifest_ref : String

-- The body names no candidate as inside the network.
abbrev pub candidate_of_request : DecideCandidate → Candidate
candidate_of_request c = record {
  provider = c.provider;
  model = c.model;
  priority = c.priority;
  in_network = false;
}

-- What every candidate asked for, where each asked to wait.
pub record ThrottleRefusal (fl : Dollars) : Type 0 where
  pub retry_after : Option fl.Float
  pub rate_limited : List (Throttled fl)

pub data DecideResponse (fl : Dollars) (nm : Numerals fl) : Type 0 where
  bad_body no_candidates : DecideResponse fl nm
  payment_required : Refusal fl nm → DecideResponse fl nm
  too_many_requests : ThrottleRefusal fl → DecideResponse fl nm
  bad_gateway : DecideError → DecideResponse fl nm
  decided : DecisionResult → CostFacts fl → DecideResponse fl nm

unfoldable pub decide_status : {fl : Dollars} {nm : Numerals fl} → DecideResponse fl nm → ℕ
decide_status bad_body = 400
decide_status no_candidates = 400
decide_status (payment_required _) = 402
decide_status (too_many_requests _) = 429
decide_status (bad_gateway _) = 502
decide_status (decided _ _) = 200

abbrev pub no_one : List DecideCandidate → Bool
no_one [] = true
no_one (_ ∷ _) = false

abbrev pub attempts_of_error : DecideError → List AttemptRecord
attempts_of_error no_restricted_candidate = []
attempts_of_error (all_candidates_failed attempts) = attempts

module _ (fl : Dollars) (nm : Numerals fl) (throttle_of : String → Option (Throttled fl)) where
  -- throttleRefusal
  unfoldable pub throttle_refusal : DecideError → Option (ThrottleRefusal fl)
  unfolding soonest_retry causes
  throttle_refusal no_restricted_candidate = none
  throttle_refusal (all_candidates_failed attempts) =
      let errs = causes attempts in
      let (wait, all) = soonest_retry fl throttle_of errs in
      if not all
      then none
      else some (record { retry_after = wait; rate_limited = throttles_of fl throttle_of errs })

  module _ (sorting : Sorting) (g : Gateway) (su : Setup fl) where
    abbrev pub answer_error : DecideError → DecideResponse fl nm
    answer_error why = elim (throttle_refusal why) [
      | some wait ↦ too_many_requests wait
      | none ↦ bad_gateway why
    ]

    -- What follows Decide.
    unfoldable pub settle :
        Option String
        → DecideRequest
        → DecideError ⊎ DecisionResult
        → Books fl
        → Books fl × DecideResponse fl nm
    settle tenant body (inl why) books = (
      record books {
        costs =
            record_discarded_attempts fl nm su (ledger_for fl nm su tenant) body.run_id
              body.agent_manifest_ref (attempts_of_error why) books.costs;
      },
      answer_error why,
    )
    settle tenant body (inr result) books = (
      record books {
        costs =
            record_cost fl nm su (ledger_for fl nm su tenant) body.run_id body.agent_manifest_ref
              result books.costs;
      },
      decided result (cost_facts fl nm su result),
    )

    -- The whole route: the caller, the header X-Aeon-Run-Tenant, and the body, `none` where it
    -- cannot be decoded.
    unfoldable pub decide_route :
        Option Caller → String → Option DecideRequest → Books fl → Books fl × DecideResponse fl nm
    unfolding tenant_of
    decide_route caller header none books = (books, bad_body)
    decide_route caller header (some body) books =
        let tenant = tenant_of caller header in
        if no_one body.candidates
        then (books, no_candidates)
        else elim (over_budget fl nm su tenant body.run_id body.agent_manifest_ref books) [
          | some refusal ↦ (books, payment_required refusal)
          | none ↦
              settle tenant body
                (decide sorting g (map candidate_of_request body.candidates) body.rendered_context
                  body.data_sensitivity)
                books
        ]
