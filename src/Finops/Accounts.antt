-- ===== src/Finops/Accounts.antt =====
-- go/internal/finops/reconcile.go: what a report's figures count.
use aeon_agent_harness.Prelude.{
  suc, ◌+◌, ◌≤◌, String, Bool, true, false, ◌&&◌, not, Option, none, some, List, [], ◌∷◌, ◌++◌, ◌≡◌,
  refl, inl, inr, arith, length, count_if, length-append, if◌then◌else◌, ◌==◌, string_comparable,
  nat_comparable, Option-cases, Bool-cases,
}
use aeon_agent_harness.Prelude.Int.{ℤ}
use aeon_agent_harness.Finops.{Dollars}
use aeon_agent_harness.Finops.Reconcile.{
  Report, Divergence, empty_report, PlatformUsage, LedgerRow, same_int, differ, recomputed,
  costs_nothing, diverges, other_model, missing, replay_billed, compare_tokens, compare_itself,
  compare_costs, compare_usage, reconcile_row, reconcile_rows, reconcile,
}

module _ (fl : Dollars) where
  abbrev tokens_agree : Option ℤ → Option ℤ → PlatformUsage fl → Bool
  tokens_agree (some p) (some c) usage =
      same_int p usage.prompt_tokens && same_int c usage.completion_tokens
  tokens_agree _ _ usage = false

  abbrev is_consistent :
      PlatformUsage fl → Option fl.Float → Option fl.Float → Option fl.Float → Bool
  is_consistent usage (some cost) (some p) (some c) = not (differ fl cost (recomputed fl usage p c))
  is_consistent usage _ _ _ = true

  abbrev costs_agree : Option fl.Float → Option fl.Float → Bool
  costs_agree none none = true
  costs_agree (some ours) (some theirs) = not (differ fl ours theirs)
  costs_agree _ _ = false

  -- The row and the usage tell of the same model, tokens and cost, and the usage's cost is what its
  -- own rates make.
  abbrev pub agrees_with : LedgerRow fl → PlatformUsage fl → Bool
  agrees_with row usage =
      (row.model == usage.model)
      && (tokens_agree row.prompt_tokens row.completion_tokens usage
          && (is_consistent usage usage.cost_usd usage.prompt_price_per_1m
                usage.completion_price_per_1m
              && costs_agree row.cost_usd usage.cost_usd))

  -- A replay agrees where it cost nothing, another call where it agrees with its usage.
  abbrev pub agrees : (String → Option (PlatformUsage fl)) → LedgerRow fl → Bool
  agrees source row =
      not (row.provider_request_id == "")
      && (if not (row.idempotent_replay_of == "")
          then costs_nothing fl row.cost_usd
          else elim (source row.provider_request_id) [
            | none ↦ false
            | some usage ↦ agrees_with row usage
          ])

  compare_tokens-agree :
      (id : String) (p c : Option ℤ) (usage : PlatformUsage fl)
      → (length (compare_tokens fl id p c usage) == 0) ≡ tokens_agree p c usage
  unfolding compare_tokens
  compare_tokens-agree id none c usage = ground arith
  compare_tokens-agree id (some p) none usage = ground arith
  compare_tokens-agree id (some p) (some c) usage = ground arith

  compare_itself-agree :
      (id : String) (usage : PlatformUsage fl) (cost p c : Option fl.Float)
      → (length (compare_itself fl id usage cost p c) == 0) ≡ is_consistent usage cost p c
  unfolding compare_itself
  compare_itself-agree id usage none p c = ground arith
  compare_itself-agree id usage (some cost) none c = ground arith
  compare_itself-agree id usage (some cost) (some p) none = ground arith
  compare_itself-agree id usage (some cost) (some p) (some c) = ground arith

  compare_costs-agree :
      (id : String) (ours theirs : Option fl.Float)
      → (length (compare_costs fl id ours theirs) == 0) ≡ costs_agree ours theirs
  unfolding compare_costs
  compare_costs-agree id none none = ground arith
  compare_costs-agree id none (some theirs) = ground arith
  compare_costs-agree id (some ours) none = ground arith
  compare_costs-agree id (some ours) (some theirs) = ground arith

  diverges-agree : (b : Bool) (id : String) → (length (diverges fl (not b) id other_model) == 0) ≡ b
  diverges-agree true id = ground arith
  diverges-agree false id = ground arith

  length-append_zero :
      (xs ys : List Divergence) → (length (xs ++ ys) == 0) ≡ ((length xs == 0) && (length ys == 0))
  length-append_zero [] ys = ground arith
  length-append_zero (x ∷ xs) ys = ground arith

  compare_usage-agrees :
      (row : LedgerRow fl) (usage : PlatformUsage fl)
      → (length (compare_usage fl row usage) == 0) ≡ agrees_with row usage
  unfolding compare_usage
  compare_usage-agrees row usage =
      let id = row.provider_request_id in
      let tokens = compare_tokens fl id row.prompt_tokens row.completion_tokens usage in
      let itself =
        compare_itself fl id usage usage.cost_usd usage.prompt_price_per_1m
          usage.completion_price_per_1m in
      let costs = compare_costs fl id row.cost_usd usage.cost_usd in
      rw
        (
          length-append_zero (diverges fl (not (row.model == usage.model)) id other_model)
              (tokens ++ (itself ++ costs)),
          length-append_zero tokens (itself ++ costs),
          length-append_zero itself costs,
          diverges-agree (row.model == usage.model) id,
          compare_tokens-agree id row.prompt_tokens row.completion_tokens usage,
          compare_itself-agree id usage usage.cost_usd usage.prompt_price_per_1m
              usage.completion_price_per_1m,
          compare_costs-agree id row.cost_usd usage.cost_usd,
        )
        refl

  -- How a report grows by a row.
  abbrev Grows : Bool → Report → Report → Type 0
  Grows agreed a b =
      (b.compared + b.unreconciled ≡ suc (a.compared + a.unreconciled))
      × (b.agreed ≡ (if agreed then suc a.agreed else a.agreed))
      × (a.compared ≤ a.agreed + length a.divergences
          → b.compared ≤ b.agreed + length b.divergences)

  reconcile_row-Grows :
      (source : String → Option (PlatformUsage fl)) (row : LedgerRow fl) (report : Report)
      → Grows (agrees source row) report (reconcile_row fl source row report)
  unfolding reconcile_row
  reconcile_row-Grows source row report = elim (Bool-cases (row.provider_request_id == "")) [
    | inl unnamed ↦ ground (arith, unnamed)
    | inr named ↦ elim (Bool-cases (row.idempotent_replay_of == "")) [
      | inr replay ↦ ground (
        arith,
        named,
        replay,
        length-append report.divergences (diverges fl true row.provider_request_id replay_billed),
      )
      | inl first ↦ elim (Option-cases (source row.provider_request_id)) [
        | inl absent ↦ ground (
          arith,
          named,
          first,
          absent,
          length-append report.divergences (diverges fl true row.provider_request_id missing),
        )
        | inr (usage, there) ↦ ground (
          arith,
          named,
          first,
          there,
          compare_usage-agrees row usage,
          length-append report.divergences (compare_usage fl row usage),
        )
      ]
    ]
  ]

  reconcile_rows-grows :
      (source : String → Option (PlatformUsage fl)) (rows : List (LedgerRow fl)) (a : Report)
      → let b = reconcile_rows fl source rows a in
        (b.compared + b.unreconciled ≡ length rows + (a.compared + a.unreconciled))
        × (b.agreed ≡ count_if (agrees source) rows + a.agreed)
        × (a.compared ≤ a.agreed + length a.divergences
            → b.compared ≤ b.agreed + length b.divergences)
  unfolding reconcile_rows
  reconcile_rows-grows source [] a = ground arith
  reconcile_rows-grows source (row ∷ rows) a = ground (
    arith,
    reconcile_row-Grows source row a,
    reconcile_rows-grows source rows (reconcile_row fl source row a),
  )

  -- Every row is counted once, as compared or as unreconciled; the rows that agree are those that
  -- agree with the platform's accounting or are replays that cost nothing; and of the rows that were
  -- compared no more disagree than divergences are reported.
  pub reconcile-accounts :
      (source : String → Option (PlatformUsage fl)) (rows : List (LedgerRow fl))
      → let report = reconcile fl source rows in
        (report.compared + report.unreconciled ≡ length rows)
        × (report.agreed ≡ count_if (agrees source) rows)
        × (report.compared ≤ report.agreed + length report.divergences)
  unfolding reconcile
  reconcile-accounts source rows = ground (arith, reconcile_rows-grows source rows empty_report)
