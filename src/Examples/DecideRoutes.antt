-- ===== src/Examples/DecideRoutes.antt =====
-- An agent that may make two calls in a run, and three requests of its run.
use aeon_agent_harness.Prelude.{
  ◌≤◌, String, true, false, Option, none, some, List, [], ◌∷◌, ◌≡◌, ◌≢◌, refl, inr, arith, leb,
  string_comparable, eq_iff,
}
use aeon_agent_harness.Prelude.Int.{pos}
use aeon_agent_harness.Json.{Members, member, no_members, object, number}
use aeon_agent_harness.Auth.{Caller, service}
use aeon_agent_harness.Finops.Ceiling.{ceiling_from_manifest, budgets_of}
use aeon_agent_harness.Registry.{AgentRecord, find_agent, is_agent, get_agent}
use aeon_agent_harness.Registry.Methods.{draft_row}
use aeon_agent_harness.Throttled.{Throttled}
use aeon_agent_harness.DecideRoute.{Numerals, Books, Setup}
use aeon_agent_harness.DecideRoute.Budget.{split_manifest_ref}
use aeon_agent_harness.DecideRoute.Route.{DecideRequest, decide_route, decide_status}
use aeon_agent_harness.DecideRoute.Growth.{recorded}
use aeon_agent_harness.DecideRoute.Ceilings.{IsCapped}
use aeon_agent_harness.DecideRoute.Capped.{Asked, serve_all, serve_all-bounded}
use aeon_agent_harness.DecideRoute.Restricted.{decide_route-restricted}
use aeon_agent_harness.Examples.Ledgers.{dollars, not_negative, truncate}
use aeon_agent_harness.Examples.ModelGateways.{insertion, gateway}

abbrev numerals : Numerals dollars
numerals = record {
  read = λ literal. 2;
  read_int = λ literal. pos 2;
  not_negative = not_negative;
  truncated = truncate;
  at_least = λ a b. leb b a;
  no_cost = 0;
}

abbrev setup : Setup dollars
setup = record {
  pricing = none;
  has_ledger = true;
  has_agents = true;
  agents_fail = false;
  spend_fails = false;
  record_fails = λ e. false;
}

abbrev two_calls : Members
two_calls =
    member "spec"
      (object (
        member "runtime"
          (object
            (member "budgets" (object (member "modelCalls" (number "2") no_members)) no_members))
          no_members))
      no_members

abbrev agent : AgentRecord
agent = draft_row "acme" "a" "1" "ana" two_calls 5

abbrev books : Books dollars
books = record { costs = []; agents = agent ∷ [] }

abbrev worker : Caller
worker = record {
  id = "w";
  kind = service;
  token_sha256 = "";
  may_act_as = [];
  may_approve = false;
  tenant = "acme";
  may_act_for_tenants = [];
}

abbrev request : String → DecideRequest
request sensitivity = record {
  candidates = record { provider = "near"; model = "small"; priority = pos 0 } ∷ [];
  rendered_context = no_members;
  data_sensitivity = sensitivity;
  run_id = "run-1";
  agent_manifest_ref = "a@1";
}

abbrev no_throttle : String → Option (Throttled dollars)
no_throttle err = none

abbrev asked : Asked dollars numerals setup "acme" "run-1" "a@1" 2 no_throttle insertion gateway
asked = (some worker, "", some (request ""))

abbrev three_times :
    List (Asked dollars numerals setup "acme" "run-1" "a@1" 2 no_throttle insertion gateway)
three_times = asked ∷ asked ∷ asked ∷ []

books-IsCapped : IsCapped dollars numerals setup "acme" "run-1" "a@1" 2 books.agents
unfolding split_manifest_ref get_agent find_agent is_agent ceiling_from_manifest budgets_of
books-IsCapped = (
  "a",
  "1",
  agent,
  refl,
  refl,
  refl,
  refl,
  refl,
  refl,
  (λ e. ground (arith, eq_iff "run-1" "", e)),
  (λ e. ground (arith, eq_iff "a@1" "", e)),
)

serve_all-bounded_example :
    recorded dollars numerals setup "acme" "run-1"
      (serve_all dollars numerals setup "acme" "run-1" "a@1" 2 no_throttle insertion gateway
        three_times books).costs
    ≤ 2
serve_all-bounded_example =
    serve_all-bounded dollars numerals setup "acme" "run-1" "a@1" 2 no_throttle insertion gateway
      three_times books 1 2 books-IsCapped
      ((ground arith, inr refl), ((ground arith, inr refl), ((ground arith, inr refl), tt)))
      (ground arith) (ground arith)

decide_route-restricted_example :
    ((decide_route dollars numerals no_throttle insertion gateway setup
        (some worker)
        ""
        (some (request "restricted"))
        books).0
      ≡ books)
    × (decide_status
          (decide_route dollars numerals no_throttle insertion gateway setup
            (some worker)
            ""
            (some (request "restricted"))
            books).1
        ≢ 200)
decide_route-restricted_example =
    decide_route-restricted dollars numerals no_throttle insertion gateway setup (some worker) ""
      (request "restricted") books refl
