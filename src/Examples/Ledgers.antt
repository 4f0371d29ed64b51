-- ===== src/Examples/Ledgers.antt =====
-- Two calls of the ledger, one of which the platform charged otherwise, in whole dollars.
use aeon_agent_harness.Prelude.{
  false, ℕ, ◌+◌, ◌*◌, ◌/◌, ◌-◌, ◌≤◌, String, Bool, true, Option, none, some, List, [], ◌∷◌, ◌≡◌,
  refl, length, count_if, ltb, ◌==◌, nat_comparable,
}
use aeon_agent_harness.Prelude.Int.{ℤ, pos, pos_part}
use aeon_agent_harness.Json.{Members, member, no_members, object, number, text}
use aeon_agent_harness.Finops.{Dollars}
use aeon_agent_harness.Finops.Ceiling.{ceiling_from_manifest, budgets_of}
use aeon_agent_harness.Finops.Reconcile.{
  LedgerRow, PlatformUsage, Report, reconcile, reconcile_rows, reconcile_row, compare_usage,
  compare_tokens, compare_itself, compare_costs,
}
use aeon_agent_harness.Finops.Ledger.{CostEntry, RunSpend, spend_of, spend_for_run}
use aeon_agent_harness.Finops.Spending.{
  charge_all, account_of, record_all, tally_of, spend_for_run-record_all,
}
use aeon_agent_harness.Finops.Accounts.{agrees, reconcile-accounts}

abbrev pub dollars : Dollars
dollars = record {
  Float = ℕ;
  of_int = λ i. pos_part i;
  plus = λ a b. a + b;
  minus = λ a b. (a - b) + (b - a);
  times = λ a b. a * b;
  divide = λ a b. a / b;
  absolute = λ a. a;
  exceeds = λ a b. ltb b a;
  is_zero = λ a. a == 0;
  million = 1000000;
  cost_tolerance = 0;
}

abbrev row : String → ℕ → LedgerRow dollars
row id cost = record {
  provider = "near";
  model = "small";
  prompt_tokens = some (pos 10);
  completion_tokens = some (pos 5);
  cost_usd = some cost;
  provider_request_id = id;
  idempotent_replay_of = "";
}

abbrev usage : PlatformUsage dollars
usage = record {
  request_id = "r1";
  model = "small";
  prompt_tokens = pos 10;
  completion_tokens = pos 5;
  cost_usd = some 3;
  prompt_price_per_1m = none;
  completion_price_per_1m = none;
}

abbrev source : String → Option (PlatformUsage dollars)
source id = some usage

abbrev rows : List (LedgerRow dollars)
rows = row "r1" 3 ∷ row "r2" 4 ∷ []

one_agrees : (reconcile dollars source rows).agreed ≡ 1
unfolding reconcile reconcile_rows reconcile_row compare_usage compare_tokens compare_itself
    compare_costs
one_agrees = refl

abbrev report : Report
report = reconcile dollars source rows

reconcile-accounts_example :
    (report.compared + report.unreconciled ≡ length rows)
    × (report.agreed ≡ count_if (agrees dollars source) rows)
    × (report.compared ≤ report.agreed + length report.divergences)
reconcile-accounts_example = reconcile-accounts dollars source rows

abbrev spec : Members
spec =
    member "runtime"
      (object (
        member "budgets"
          (object (member "costUsd" (text "ten") (member "tokens" (number "5") no_members)))
          no_members))
      no_members

abbrev manifest : Members
manifest = member "spec" (object spec) no_members

abbrev read : String → ℕ
read literal = 5

abbrev pub not_negative : ℕ → Bool
not_negative f = true

abbrev pub truncate : ℕ → ℤ
truncate f = pos f

cost_is_reported :
    (ceiling_from_manifest dollars read not_negative truncate manifest).1 ≡ "costUsd" ∷ []
unfolding ceiling_from_manifest budgets_of
cost_is_reported = refl

abbrev asked : String → CostEntry dollars
asked discarded = record {
  provider = "near";
  model = "small";
  cost_model = none;
  prompt_tokens = some (pos 10);
  completion_tokens = some (pos 5);
  cost_usd = none;
  run_id = "run-1";
  agent_manifest_ref = "a@1";
  cache_read_tokens = none;
  cache_write_tokens = none;
  reasoning_tokens = none;
  provider_request_id = "";
  idempotent_replay_of = "";
  served_model = "";
  served_by_instance = "";
  discarded_reason = discarded;
}

abbrev calls : List (String × CostEntry dollars)
calls = ("acme", asked "") ∷ ("evil", asked "") ∷ ("acme", asked "empty") ∷ []

one_served :
    charge_all dollars calls (account_of dollars 0 []) "acme" "run-1"
    ≡ record { model_calls = 1; discarded_calls = 1; unpriced_calls = 1; tokens = pos 30 }
unfolding spend_of
one_served = refl

spend_for_run-record_all_example :
    (s : RunSpend dollars) × (spend_for_run dollars 0 false "acme" "run-1"
        (record_all dollars calls [])
      ≡ some s)
    × (tally_of dollars s ≡ charge_all dollars calls (account_of dollars 0 []) "acme" "run-1")
spend_for_run-record_all_example = spend_for_run-record_all dollars 0 calls [] "acme" "run-1"
