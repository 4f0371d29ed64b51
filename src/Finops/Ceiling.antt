-- ===== src/Finops/Ceiling.antt =====
-- go/internal/finops/ceiling.go: the spend ceiling that a manifest declares.
use aeon_agent_harness.Prelude.{
  String, Bool, true, false, ◌||◌, Option, none, some, List, [], ◌∷◌, ◌++◌, if◌then◌else◌,
  string_comparable,
}
use aeon_agent_harness.Prelude.Int.{ℤ}
use aeon_agent_harness.Json.{Json, number, Members, member_of, as_map}
use aeon_agent_harness.Finops.{Dollars}

abbrev pub is_given {ℓ} : {A : Type ℓ} → Option A → Bool
is_given none = false
is_given (some _) = true

-- `read` is the float64 of a literal, `not_negative` is f >= 0 and `truncated` is int(f).
module _ (fl : Dollars) (read : String → fl.Float) (not_negative : fl.Float → Bool)
    (truncated : fl.Float → ℤ) where
  pub record Ceiling : Type 0 where
    pub cost_usd : Option fl.Float
    pub model_calls : Option ℤ
    pub tokens : Option ℤ

  unfoldable pub is_declared : Ceiling → Bool
  is_declared c = is_given c.cost_usd || (is_given c.model_calls || is_given c.tokens)

  -- A manifest is decoded from JSON, so a number is a float64.
  abbrev as_float : Json → Option fl.Float
  as_float (number n) = some (read n)
  as_float _ = none

  -- What a budget's field gives: the ceiling, or the key as a problem.
  abbrev enforce_float : String → Option fl.Float → Option fl.Float × List String
  enforce_float key none = (none, key ∷ [])
  enforce_float key (some f) = if not_negative f then (some f, []) else (none, key ∷ [])

  abbrev enforce : String → Option Json → Option fl.Float × List String
  enforce key none = (none, [])
  enforce key (some raw) = enforce_float key (as_float raw)

  abbrev whole : Option fl.Float → Option ℤ
  whole none = none
  whole (some f) = some (truncated f)

  unfoldable pub budgets_of : Members → Members
  budgets_of manifest =
      let spec = as_map (member_of "spec" manifest none) in
      let runtime = as_map (member_of "runtime" spec none) in
      as_map (member_of "budgets" runtime none)

  abbrev ceiling_of : Option Json → Option Json → Option Json → Ceiling × List String
  ceiling_of raw_cost raw_tokens raw_calls =
      let (cost, costs) = enforce "costUsd" raw_cost in
      let (tokens, tokens') = enforce "tokens" raw_tokens in
      let (calls, calls') = enforce "modelCalls" raw_calls in
      (
        record { cost_usd = cost; model_calls = whole calls; tokens = whole tokens },
        costs ++ (tokens' ++ calls'),
      )

  -- The ceiling, and the keys of the problems.
  unfoldable pub ceiling_from_manifest : Members → Ceiling × List String
  unfolding budgets_of
  ceiling_from_manifest manifest =
      let budgets = budgets_of manifest in
      ceiling_of (member_of "costUsd" budgets none) (member_of "tokens" budgets none)
        (member_of "modelCalls" budgets none)
