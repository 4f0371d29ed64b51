-- ===== src/DecideRoute/Ceilings.antt =====
-- go/internal/api/model_gateway_handlers.go: a run that has made the calls that its ceiling allows.
use aeon_agent_harness.Prelude.{
  ℕ, ◌+◌, ◌≤◌, String, Bool, true, false, not, some, List, [], ◌∷◌, ◌≡◌, ◌≢◌, inl, inr, arith,
  length, keep, count_if, string_comparable, eq_iff, Bool-cases,
}
use aeon_agent_harness.Prelude.Int.{pos}
use aeon_agent_harness.Finops.{Dollars}
use aeon_agent_harness.Finops.Ceiling.{ceiling_from_manifest, is_declared}
use aeon_agent_harness.Finops.Ledger.{RunSpend, spend_of, spend_for_run, of_run, is_served}
use aeon_agent_harness.Registry.{AgentRecord, get_agent}
use aeon_agent_harness.DecideRoute.{Numerals, Books, Setup}
use aeon_agent_harness.DecideRoute.Budget.{
  CeilingOf, Exceeded, cost_exceeded, tokens_exceeded, model_calls_exceeded, cost_reached,
  count_reached, exceeded_by, Refusal, manifest_of, over_ceiling, over_budget, split_manifest_ref,
}
use aeon_agent_harness.DecideRoute.Growth.{recorded}

count_if-split :
    {A : Type 0} (p : A → Bool) (xs : List A)
    → count_if p xs + count_if (λ x. not (p x)) xs ≡ length xs
count_if-split p [] = ground arith
count_if-split p (x ∷ xs) = ground (arith, count_if-split p xs)

module _ (fl : Dollars) (nm : Numerals fl) where
  abbrev pub declared_by : AgentRecord → CeilingOf fl nm
  declared_by a =
      (ceiling_from_manifest fl nm.read nm.not_negative nm.truncated (manifest_of fl nm a)).0

  exceeded_by-calls :
      (c : CeilingOf fl nm) (spend : RunSpend fl) (n : ℕ)
      → c.model_calls ≡ some (pos n)
      → n ≤ spend.model_calls + spend.discarded_calls
      → (why : Exceeded) × (exceeded_by fl nm c spend ≡ some why)
  unfolding exceeded_by
  exceeded_by-calls c spend n limit over =
      elim (Bool-cases (cost_reached fl nm c.cost_usd spend.cost_usd)) [
        | inl yes_cost ↦ (cost_exceeded, ground (arith, yes_cost))
        | inr no_cost ↦ elim (Bool-cases (count_reached fl nm c.tokens spend.tokens)) [
          | inl yes_tokens ↦ (tokens_exceeded, ground (arith, no_cost, yes_tokens))
          | inr no_tokens ↦ (model_calls_exceeded, ground (arith, no_cost, no_tokens, limit, over))
        ]
      ]

module _ (fl : Dollars) (nm : Numerals fl) (su : Setup fl) (t r ref : String) (n : ℕ) where
  -- The tenant's agent is registered with a ceiling of `n` calls, and what the ceiling is checked
  -- against can be read.
  abbrev pub IsCapped : List AgentRecord → Type 0
  IsCapped agents =
      (name version : String) × (a : AgentRecord) × (split_manifest_ref ref ≡ some (name, version))
      × (get_agent su.agents_fail t name version agents ≡ inr a)
      × ((declared_by fl nm a).model_calls ≡ some (pos n))
      × (su.spend_fails ≡ false)
      × (su.has_agents ≡ true)
      × (su.has_ledger ≡ true)
      × (r ≢ "")
      × (ref ≢ "")

  over_ceiling-refuses :
      (books : Books fl) (a : AgentRecord)
      → (declared_by fl nm a).model_calls ≡ some (pos n)
      → su.spend_fails ≡ false
      → n ≤ recorded fl nm su t r books.costs
      → (refusal : Refusal fl nm) × (over_ceiling fl nm su t r ref books a ≡ some refusal)
  unfolding over_ceiling is_declared spend_for_run spend_of
  over_ceiling-refuses books a limit fine over =
      let rows = keep (of_run fl t r) books.costs in
      let spend = spend_of fl nm.no_cost rows in
      let (why, reached) =
        exceeded_by-calls fl nm (declared_by fl nm a) spend n limit
          (ground (arith, over, count_if-split (is_served fl) rows)) in
      (
        record {
          exceeded = why;
          run_id = r;
          agent_manifest_ref = ref;
          ceiling = declared_by fl nm a;
          spend = spend;
        },
        ground (arith, limit, fine, reached),
      )

  pub over_budget-refuses :
      (books : Books fl)
      → IsCapped books.agents
      → n ≤ recorded fl nm su t r books.costs
      → (refusal : Refusal fl nm) × (over_budget fl nm su (some t) r ref books ≡ some refusal)
  unfolding over_budget
  over_budget-refuses books
        (name, version, a, parts, found, limit, fine, agents, ledger, run, named) over =
      let (refusal, refused) = over_ceiling-refuses books a limit fine over in
      (
        refusal,
        ground
            (arith, parts, found, refused, agents, ledger, run, named, eq_iff r "", eq_iff ref ""),
      )
