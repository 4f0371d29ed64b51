-- ===== src/Finops.antt =====
-- go/internal/finops/: prices, and the comparison of the ledger with the platform's accounting.
-- float64 is a parameter, of which no law is used.
pub mod Pricing
pub mod Reconcile
pub mod Accounts
pub mod Ceiling
pub mod Ledger
pub mod Spending
use aeon_agent_harness.Prelude.{Bool}
use aeon_agent_harness.Prelude.Int.{ℤ}

-- The numbers and their operations.
pub record Dollars : Type 1 where
  pub Float : Type 0
  pub of_int : ℤ → Float
  pub plus : Float → Float → Float
  pub minus : Float → Float → Float
  pub times : Float → Float → Float
  pub divide : Float → Float → Float
  pub absolute : Float → Float
  pub exceeds : Float → Float → Bool
  pub is_zero : Float → Bool
  -- 1e6 and 1e-12
  pub million : Float
  pub cost_tolerance : Float
