-- ===== src/DecideRoute/Restricted.antt =====
-- go/internal/api/model_gateway_handlers.go: restricted data on the route that decides.
use aeon_agent_harness.Prelude.{
  String, Option, some, List, [], ◌∷◌, ◌≡◌, ◌≢◌, refl, inl, inr, arith, keep, map,
  string_comparable, eq_iff, Option-cases, ap, ◌∙◌,
}
use aeon_agent_harness.Auth.{Caller}
use aeon_agent_harness.Finops.{Dollars}
use aeon_agent_harness.Throttled.{Throttled}
use aeon_agent_harness.ModelGateway.{no_restricted_candidate}
use aeon_agent_harness.ModelGateway.Routing.{
  Gateway, Sorting, decide, restrict_pool, discarded_attempts,
}
use aeon_agent_harness.DecideRoute.{Numerals, Books, Setup}
use aeon_agent_harness.DecideRoute.Usage.{tenant_of}
use aeon_agent_harness.DecideRoute.Costs.{record_discarded_attempts, record_discarded}
use aeon_agent_harness.DecideRoute.Budget.{over_budget}
use aeon_agent_harness.DecideRoute.Route.{
  DecideCandidate, DecideRequest, candidate_of_request, throttle_refusal, settle, decide_route,
  decide_status,
}

none_in_network :
    (cs : List DecideCandidate) → keep (λ c. c.in_network) (map candidate_of_request cs) ≡ []
none_in_network [] = refl
none_in_network (c ∷ cs) = none_in_network cs

restrict_pool-request :
    (cs : List DecideCandidate)
    → restrict_pool (map candidate_of_request cs) "restricted" ≡ inl no_restricted_candidate
unfolding restrict_pool
restrict_pool-request cs = ground (arith, none_in_network cs, eq_iff "restricted" "restricted")

module _ (fl : Dollars) (nm : Numerals fl) (throttle_of : String → Option (Throttled fl))
    (sorting : Sorting) (g : Gateway) (su : Setup fl) where
  -- A request with restricted data is never served, whatever its candidates and providers are, and
  -- nothing is recorded of it.
  pub decide_route-restricted :
      (caller : Option Caller) (header : String) (body : DecideRequest) (books : Books fl)
      → body.data_sensitivity ≡ "restricted"
      → let (after, answer) =
          decide_route fl nm throttle_of sorting g su caller header (some body) books in
        (after ≡ books) × (decide_status answer ≢ 200)
  unfolding decide_route decide settle decide_status record_discarded_attempts discarded_attempts
      record_discarded throttle_refusal
  decide_route-restricted caller header body books restricted =
      let pool : restrict_pool (map candidate_of_request body.candidates) body.data_sensitivity
          ≡ inl no_restricted_candidate =
        ap (restrict_pool (map candidate_of_request body.candidates)) restricted
        ∙ restrict_pool-request body.candidates in
      elim (Option-cases (
        over_budget fl nm su (tenant_of caller header) body.run_id body.agent_manifest_ref books)) [
          | inr (refusal, refused) ↦ ground (arith, refused)
          | inl fine ↦ ground (arith, fine, pool)
        ]
