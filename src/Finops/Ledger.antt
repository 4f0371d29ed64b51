-- ===== src/Finops/Ledger.antt =====
-- go/internal/store/finops_ledger.go: the ledger of costs. The state is the table
-- model_gateway_costs as the list of its rows, in the order of writing.
use aeon_agent_harness.Prelude.{
  ℕ, zero, suc, String, Bool, true, false, ◌&&◌, not, Option, none, some, List, [], ◌∷◌, ◌++◌, keep,
  count_if, any, map, if◌then◌else◌, ◌==◌, string_comparable,
}
use aeon_agent_harness.Prelude.Int.{ℤ, pos, pos_part, leb_ℤ, ◌+ℤ◌}
use aeon_agent_harness.Finops.{Dollars}

abbrev pub nullable : String → Option String
nullable v = if v == "" then none else some v

-- coalesce(v, '')
abbrev pub coalesce_text : Option String → String
coalesce_text none = ""
coalesce_text (some v) = v

abbrev pub is_null {ℓ} : {A : Type ℓ} → Option A → Bool
is_null none = true
is_null (some _) = false

-- coalesce(v, 0)
abbrev pub coalesce_int : Option ℤ → ℤ
coalesce_int none = pos 0
coalesce_int (some v) = v

-- column = $1, which no NULL satisfies
abbrev pub is_text : String → Option String → Bool
is_text wanted none = false
is_text wanted (some v) = v == wanted

module _ (fl : Dollars) where
  pub record CostEntry : Type 0 where
    pub provider : String
    pub model : String
    pub cost_model : Option String
    pub prompt_tokens : Option ℤ
    pub completion_tokens : Option ℤ
    pub cost_usd : Option fl.Float
    pub run_id : String
    pub agent_manifest_ref : String
    pub cache_read_tokens : Option ℤ
    pub cache_write_tokens : Option ℤ
    pub reasoning_tokens : Option ℤ
    pub provider_request_id : String
    pub idempotent_replay_of : String
    pub served_model : String
    pub served_by_instance : String
    pub discarded_reason : String

  pub record CostRow : Type 0 where
    pub tenant_id : String
    pub provider : String
    pub model : String
    pub cost_model : Option String
    pub prompt_tokens : Option ℤ
    pub completion_tokens : Option ℤ
    pub cost_usd : Option fl.Float
    pub run_id : Option String
    pub agent_manifest_ref : Option String
    pub cache_read_tokens : Option ℤ
    pub cache_write_tokens : Option ℤ
    pub reasoning_tokens : Option ℤ
    pub provider_request_id : Option String
    pub idempotent_replay_of : Option String
    pub served_model : Option String
    pub served_by_instance : Option String
    pub discarded_reason : Option String

  abbrev pub cost_row : String → CostEntry → CostRow
  cost_row tenant e = record {
    tenant_id = tenant;
    provider = e.provider;
    model = e.model;
    cost_model = e.cost_model;
    prompt_tokens = e.prompt_tokens;
    completion_tokens = e.completion_tokens;
    cost_usd = e.cost_usd;
    run_id = nullable e.run_id;
    agent_manifest_ref = nullable e.agent_manifest_ref;
    cache_read_tokens = e.cache_read_tokens;
    cache_write_tokens = e.cache_write_tokens;
    reasoning_tokens = e.reasoning_tokens;
    provider_request_id = nullable e.provider_request_id;
    idempotent_replay_of = nullable e.idempotent_replay_of;
    served_model = nullable e.served_model;
    served_by_instance = nullable e.served_by_instance;
    discarded_reason = nullable e.discarded_reason;
  }

  -- Record; the Boolean is whether Postgres fails the INSERT, and the callers only log the error.
  unfoldable pub record_entry : Bool → String → CostEntry → List CostRow → List CostRow
  record_entry fails tenant e rows = if fails then rows else rows ++ cost_row tenant e ∷ []

  -- FILTER (WHERE discarded_reason IS NULL)
  abbrev pub is_served : CostRow → Bool
  is_served r = is_null r.discarded_reason

  abbrev pub of_run : String → String → CostRow → Bool
  of_run tenant run r = r.tenant_id == tenant && is_text run r.run_id

  -- coalesce(sum(...), 0), in the order of the rows
  abbrev pub sum_ints : (CostRow → ℤ) → List CostRow → ℤ
  sum_ints f [] = pos 0
  sum_ints f (r ∷ rows) = f r +ℤ sum_ints f rows

  abbrev add_cost_of : Option fl.Float → fl.Float → fl.Float
  add_cost_of none total = total
  add_cost_of (some c) total = fl.plus c total

  -- `none_spent` is the float 0.
  abbrev pub sum_costs : fl.Float → List CostRow → fl.Float
  sum_costs none_spent [] = none_spent
  sum_costs none_spent (r ∷ rows) = add_cost_of r.cost_usd (sum_costs none_spent rows)

  abbrev same_model : CostRow → CostRow → Bool
  same_model a b = a.provider == b.provider && a.model == b.model

  -- count(DISTINCT (provider, model))
  abbrev pub count_models : List CostRow → ℕ
  count_models [] = 0
  count_models (r ∷ rows) =
      let rest = count_models rows in if any (λ x. same_model r x) rows then rest else suc rest

  pub record RunSpend : Type 0 where
    pub cost_usd : fl.Float
    pub priced_calls : ℕ
    pub unpriced_calls : ℕ
    pub model_calls : ℕ
    pub discarded_calls : ℕ
    pub discarded_cost_usd : fl.Float
    pub tokens : ℤ
    pub unreported_usage_calls : ℕ
    pub prompt_tokens : ℤ
    pub completion_tokens : ℤ
    pub distinct_models : ℕ

  abbrev pub tokens_of : CostRow → ℤ
  tokens_of r = coalesce_int r.prompt_tokens +ℤ coalesce_int r.completion_tokens

  -- The aggregates of SpendForRun's query over the run's rows.
  unfoldable pub spend_of : fl.Float → List CostRow → RunSpend
  spend_of none_spent rows = record {
    cost_usd = sum_costs none_spent rows;
    priced_calls = count_if (λ r. not (is_null r.cost_usd) && is_served r) rows;
    unpriced_calls = count_if (λ r. is_null r.cost_usd && is_served r) rows;
    model_calls = count_if is_served rows;
    discarded_calls = count_if (λ r. not (is_served r)) rows;
    discarded_cost_usd = sum_costs none_spent (keep (λ r. not (is_served r)) rows);
    tokens = sum_ints tokens_of rows;
    unreported_usage_calls =
        count_if (λ r. is_null r.prompt_tokens && (is_null r.completion_tokens && is_served r))
          rows;
    prompt_tokens = sum_ints (λ r. coalesce_int r.prompt_tokens) rows;
    completion_tokens = sum_ints (λ r. coalesce_int r.completion_tokens) rows;
    distinct_models = count_models rows;
  }

  -- SpendForRun; `none` where the query fails.
  unfoldable pub spend_for_run : fl.Float → Bool → String → String → List CostRow → Option RunSpend
  spend_for_run none_spent fails tenant run rows =
      if fails then none else some (spend_of none_spent (keep (of_run tenant run) rows))

  pub record LedgerEntry : Type 0 where
    pub provider : String
    pub model : String
    pub prompt_tokens : Option ℤ
    pub completion_tokens : Option ℤ
    pub cost_usd : Option fl.Float
    pub provider_request_id : String
    pub idempotent_replay_of : String
    pub served_model : String
    pub served_by_instance : String

  abbrev pub ledger_entry : CostRow → LedgerEntry
  ledger_entry r = record {
    provider = r.provider;
    model = r.model;
    prompt_tokens = r.prompt_tokens;
    completion_tokens = r.completion_tokens;
    cost_usd = r.cost_usd;
    provider_request_id = coalesce_text r.provider_request_id;
    idempotent_replay_of = coalesce_text r.idempotent_replay_of;
    served_model = coalesce_text r.served_model;
    served_by_instance = coalesce_text r.served_by_instance;
  }

  -- ORDER BY id DESC LIMIT n
  abbrev pub last_first : List CostRow → List CostRow → List CostRow
  last_first [] done = done
  last_first (r ∷ rows) done = last_first rows (r ∷ done)

  abbrev pub limited : ℕ → List CostRow → List CostRow
  limited n [] = []
  limited zero (r ∷ rows) = []
  limited (suc n) (r ∷ rows) = r ∷ limited n rows

  abbrev effective_limit : ℤ → ℕ → ℕ
  effective_limit limit default_ = if leb_ℤ limit (pos 0) then default_ else pos_part limit

  -- RowsWithProviderRequestID, where the query succeeds.
  unfoldable pub rows_with_provider_request_id :
      String → String → ℤ → List CostRow → List LedgerEntry
  rows_with_provider_request_id tenant provider limit rows = map ledger_entry (
      limited (effective_limit limit 100) (
        last_first
          (keep
            (λ r.
              r.tenant_id == tenant
              && (r.provider == provider && not (is_null r.provider_request_id)))
            rows)
          []))

  -- RowsForModel, where the query succeeds.
  unfoldable pub rows_for_model : String → String → String → ℤ → List CostRow → List LedgerEntry
  rows_for_model tenant provider model limit rows = map ledger_entry (
      limited (effective_limit limit 20) (
        last_first
          (keep (λ r. r.tenant_id == tenant && (r.provider == provider && r.model == model)) rows)
          []))
