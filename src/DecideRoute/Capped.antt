-- ===== src/DecideRoute/Capped.antt =====
-- go/internal/api/model_gateway_handlers.go: how far a run can go past its ceiling of calls, and what
-- a refusal for the budget leaves undone.
use mathlib.Core.Path.{subst}
use aeon_agent_harness.Prelude.{
  ℕ, suc, ◌+◌, ◌≤◌, String, Option, none, some, List, [], ◌∷◌, ◌≡◌, ◌≢◌, refl, ◌⊎◌, inl, inr, arith,
  length, map, All, ◌==◌, string_comparable, eq_iff, Option-cases, Bool-cases, sym, ap,
}
use aeon_agent_harness.Auth.{Caller}
use aeon_agent_harness.Finops.{Dollars}
use aeon_agent_harness.Throttled.{Throttled}
use aeon_agent_harness.ModelGateway.{DecisionResult, DecideError}
use aeon_agent_harness.ModelGateway.Routing.{Gateway, Sorting, decide}
use aeon_agent_harness.DecideRoute.{Numerals, Books, Setup}
use aeon_agent_harness.DecideRoute.Usage.{tenant_of}
use aeon_agent_harness.DecideRoute.Costs.{ledger_for}
use aeon_agent_harness.DecideRoute.Budget.{over_budget}
use aeon_agent_harness.DecideRoute.Route.{
  DecideRequest, candidate_of_request, attempts_of_error, settle, decide_route,
}
use aeon_agent_harness.DecideRoute.Growth.{
  rows_of, decide-rows, recorded, record_discarded_attempts-recorded, record_cost-recorded,
  IsElsewhere, record_discarded_attempts-elsewhere, record_cost-elsewhere,
}
use aeon_agent_harness.DecideRoute.Ceilings.{IsCapped, over_budget-refuses}

length-map : {A B : Type 0} (f : A → B) (xs : List A) → length (map f xs) ≡ length xs
length-map f [] = refl
length-map f (x ∷ xs) = ap suc (length-map f xs)

module _ (fl : Dollars) (nm : Numerals fl) (su : Setup fl) (t r ref : String) (n : ℕ) where
  module _ (throttle_of : String → Option (Throttled fl)) (sorting : Sorting) (g : Gateway) where
    -- A request, with the caller it is authenticated as and its header.
    abbrev pub Asked : Type 0
    Asked = Option Caller × String × Option DecideRequest

    abbrev pub serve : Asked → Books fl → Books fl
    serve (caller, header, body) books =
        (decide_route fl nm throttle_of sorting g su caller header body books).0

    unfoldable pub serve_all : List Asked → Books fl → Books fl
    serve_all [] books = books
    serve_all (q ∷ qs) books = serve_all qs (serve q books)

    -- The request names at most `m` candidates, and the run only with its agent.
    abbrev pub IsOrdinary : ℕ → Asked → Type 0
    IsOrdinary m (caller, header, none) = Unit {0}
    IsOrdinary m (caller, header, some body) =
        (length body.candidates ≤ m) × ((body.run_id ≢ r) ⊎ (body.agent_manifest_ref ≡ ref))

    settle-agents :
        (tenant : Option String) (body : DecideRequest) (answer : DecideError ⊎ DecisionResult)
        (books : Books fl)
        → (settle fl nm throttle_of sorting g su tenant body answer books).0.agents ≡ books.agents
    unfolding settle
    settle-agents tenant body (inl why) books = refl
    settle-agents tenant body (inr res) books = refl

    settle-recorded :
        (tenant : Option String) (body : DecideRequest) (answer : DecideError ⊎ DecisionResult)
        (books : Books fl)
        → recorded fl nm su t r
            (settle fl nm throttle_of sorting g su tenant body answer books).0.costs
          ≤ rows_of answer + recorded fl nm su t r books.costs
    unfolding settle
    settle-recorded tenant body (inl why) books =
        record_discarded_attempts-recorded fl nm su t r (ledger_for fl nm su tenant) body.run_id
          body.agent_manifest_ref (attempts_of_error why) books.costs
    settle-recorded tenant body (inr res) books =
        record_cost-recorded fl nm su t r (ledger_for fl nm su tenant) body.run_id
          body.agent_manifest_ref res books.costs

    settle-elsewhere :
        (tenant : Option String) (body : DecideRequest) (answer : DecideError ⊎ DecisionResult)
        (books : Books fl)
        → IsElsewhere fl nm su t r (ledger_for fl nm su tenant) body.run_id
        → recorded fl nm su t r
            (settle fl nm throttle_of sorting g su tenant body answer books).0.costs
          ≡ recorded fl nm su t r books.costs
    unfolding settle
    settle-elsewhere tenant body (inl why) books other =
        record_discarded_attempts-elsewhere fl nm su t r (ledger_for fl nm su tenant) body.run_id
          body.agent_manifest_ref (attempts_of_error why) books.costs other
    settle-elsewhere tenant body (inr res) books other =
        record_cost-elsewhere fl nm su t r (ledger_for fl nm su tenant) body.run_id
          body.agent_manifest_ref res books.costs other

    serve-agents : (q : Asked) (books : Books fl) → (serve q books).agents ≡ books.agents
    unfolding decide_route
    serve-agents (caller, header, none) books = refl
    serve-agents (caller, header, some body) books =
        let tenant = tenant_of caller header in
        let answer =
          decide sorting g (map candidate_of_request body.candidates) body.rendered_context
            body.data_sensitivity in
        ground (arith, settle-agents tenant body answer books)

    -- A call that is let through is of another run, or finds fewer than `n` calls recorded.
    let_through :
        (tenant : Option String) (body : DecideRequest) (books : Books fl)
        → IsCapped fl nm su t r ref n books.agents
        → (body.run_id ≢ r) ⊎ (body.agent_manifest_ref ≡ ref)
        → over_budget fl nm su tenant body.run_id body.agent_manifest_ref books ≡ none
        → IsElsewhere fl nm su t r (ledger_for fl nm su tenant) body.run_id
          ⊎ (suc (recorded fl nm su t r books.costs) ≤ n)
    unfolding ledger_for
    let_through tenant body books capped (inl other) fine = inl (inr other)
    let_through none body books capped (inr same) fine = inl (inl (λ e. ground (arith, e)))
    let_through (some x) body books capped (inr same) fine = elim (Bool-cases (x == t)) [
      | inr foreign ↦ inl (inl (λ e. ground (arith, e, foreign, eq_iff x t)))
      | inl own ↦ elim (Bool-cases (body.run_id == r)) [
        | inr other ↦ inl (inr (λ e. ground (arith, e, other, eq_iff body.run_id r)))
        | inl this ↦
            let is_t : x ≡ t = ground (arith, own, eq_iff x t) in
            let is_r : body.run_id ≡ r = ground (arith, this, eq_iff body.run_id r) in
            let fine' : over_budget fl nm su (some t) r ref books ≡ none =
              ground (arith, fine, is_t, is_r, same) in
            inr (ground (arith, fine', over_budget-refuses fl nm su t r ref n books capped))
      ]
    ]

    serve-bounded :
        (q : Asked) (books : Books fl) (m bound : ℕ)
        → IsCapped fl nm su t r ref n books.agents
        → IsOrdinary m q
        → n + m ≤ suc bound
        → recorded fl nm su t r books.costs ≤ bound
        → recorded fl nm su t r (serve q books).costs ≤ bound
    unfolding decide_route
    serve-bounded (caller, header, none) books m bound capped plain room below = below
    serve-bounded (caller, header, some body) books m bound capped (few, names) room below =
        let tenant = tenant_of caller header in
        let answer =
          decide sorting g (map candidate_of_request body.candidates) body.rendered_context
            body.data_sensitivity in
        let most : rows_of answer ≤ length body.candidates = ground (
          arith,
          decide-rows sorting g (map candidate_of_request body.candidates) body.rendered_context
              body.data_sensitivity,
          length-map candidate_of_request body.candidates,
        ) in
        elim (Option-cases
          (over_budget fl nm su tenant body.run_id body.agent_manifest_ref books)) [
            | inr (refusal, refused) ↦ ground (arith, refused, below)
            | inl fine ↦ elim (let_through tenant body books capped names fine) [
              | inl other ↦
                  ground (arith, fine, below, settle-elsewhere tenant body answer books other)
              | inr left ↦ ground (
                arith,
                fine,
                below,
                left,
                room,
                few,
                most,
                settle-recorded tenant body answer books,
              )
            ]
          ]

    -- Where the agent of a run is registered with a ceiling of `n` calls, and the registry and the
    -- ledger are configured and can be read, no sequence of requests brings the calls that are
    -- recorded for the run past n + m - 1, where they were not past it before: a run goes past its
    -- ceiling by no more than one request. The requests are served one after the other, each has at
    -- most `m` candidates and names the run only with its agent.
    pub serve_all-bounded :
        (qs : List Asked) (books : Books fl) (m bound : ℕ)
        → IsCapped fl nm su t r ref n books.agents
        → All (IsOrdinary m) qs
        → n + m ≤ suc bound
        → recorded fl nm su t r books.costs ≤ bound
        → recorded fl nm su t r (serve_all qs books).costs ≤ bound
    unfolding serve_all
    serve_all-bounded [] books m bound capped plain room below = below
    serve_all-bounded (q ∷ qs) books m bound capped (first, plain) room below =
        serve_all-bounded qs (serve q books) m bound
          (subst (IsCapped fl nm su t r ref n) (sym (serve-agents q books)) capped) plain room
          (serve-bounded q books m bound capped first room below)
