-- ===== src/DecideRoute.antt =====
-- go/internal/api/model_gateway_handlers.go: the route that decides, with the ceiling of a run's
-- spend and the ledger of costs.
pub mod Usage
pub mod Costs
pub mod Budget
pub mod Route
pub mod Growth
pub mod Ceilings
pub mod Capped
pub mod Restricted
use aeon_agent_harness.Prelude.{String, Bool, Option, List}
use aeon_agent_harness.Prelude.Int.{ℤ}
use aeon_agent_harness.Finops.{Dollars}
use aeon_agent_harness.Finops.Pricing.{PricingTable}
use aeon_agent_harness.Finops.Ledger.{CostEntry, CostRow}
use aeon_agent_harness.Registry.{AgentRecord}

-- What Go does with a JSON number: its float64 and its int, f >= 0, int(f), a >= b, and 0.
pub record Numerals (fl : Dollars) : Type 0 where
  pub read : String → fl.Float
  pub read_int : String → ℤ
  pub not_negative : fl.Float → Bool
  pub truncated : fl.Float → ℤ
  pub at_least : fl.Float → fl.Float → Bool
  pub no_cost : fl.Float

-- The tables that the handlers read and write.
pub record Books (fl : Dollars) : Type 0 where
  pub costs : List (CostRow fl)
  pub agents : List AgentRecord

-- Which of the optional stores the deployment has, its prices, and what Postgres fails during the
-- request.
pub record Setup (fl : Dollars) : Type 0 where
  pub pricing : Option (PricingTable fl)
  pub has_ledger : Bool
  pub has_agents : Bool
  pub agents_fail : Bool
  pub spend_fails : Bool
  pub record_fails : CostEntry fl → Bool
