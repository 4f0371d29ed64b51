-- ===== src/Finops/Spending.antt =====
-- go/internal/store/finops_ledger.go: what SpendForRun promises of the calls that were recorded.
use mathlib.Core.Path.{fun_ext}
use aeon_agent_harness.Prelude.{
  ℕ, ◌+◌, String, Bool, false, ◌&&◌, not, some, List, [], ◌∷◌, ◌++◌, ◌≡◌, refl, arith, keep,
  count_if, if◌then◌else◌, ◌==◌, string_comparable, sym, ap, ◌∙◌,
}
use aeon_agent_harness.Prelude.Int.{ℤ, pos, negsuc, ◌+ℤ◌}
use aeon_agent_harness.Finops.{Dollars}
use aeon_agent_harness.Finops.Ledger.{
  CostEntry, CostRow, cost_row, record_entry, is_served, is_null, of_run, sum_ints, coalesce_int,
  RunSpend, tokens_of, spend_of, spend_for_run,
}

+ℤ_assoc : (a b c : ℤ) → (a +ℤ b) +ℤ c ≡ a +ℤ (b +ℤ c)
+ℤ_assoc (pos a) (pos b) (pos c) = ground arith
+ℤ_assoc (pos a) (pos b) (negsuc c) = ground arith
+ℤ_assoc (pos a) (negsuc b) (pos c) = ground arith
+ℤ_assoc (pos a) (negsuc b) (negsuc c) = ground arith
+ℤ_assoc (negsuc a) (pos b) (pos c) = ground arith
+ℤ_assoc (negsuc a) (pos b) (negsuc c) = ground arith
+ℤ_assoc (negsuc a) (negsuc b) (pos c) = ground arith
+ℤ_assoc (negsuc a) (negsuc b) (negsuc c) = ground arith

+ℤ_zero : (a : ℤ) → a +ℤ pos 0 ≡ a
+ℤ_zero (pos a) = ground arith
+ℤ_zero (negsuc a) = ground arith

zero_+ℤ : (a : ℤ) → pos 0 +ℤ a ≡ a
zero_+ℤ (pos a) = ground arith
zero_+ℤ (negsuc a) = ground arith

-- What is known of the calls of a run, without their costs.
pub record Tally : Type 0 where
  pub model_calls : ℕ
  pub discarded_calls : ℕ
  pub unpriced_calls : ℕ
  pub tokens : ℤ

abbrev pub no_calls : Tally
no_calls = record { model_calls = 0; discarded_calls = 0; unpriced_calls = 0; tokens = pos 0 }

abbrev pub plus_tally : Tally → Tally → Tally
plus_tally a b = record {
  model_calls = a.model_calls + b.model_calls;
  discarded_calls = a.discarded_calls + b.discarded_calls;
  unpriced_calls = a.unpriced_calls + b.unpriced_calls;
  tokens = a.tokens +ℤ b.tokens;
}

-- The tally of each run of each tenant.
abbrev pub Account : Type 0
Account = String → String → Tally

module _ (fl : Dollars) where
  -- One call: served or discarded, priced or not.
  abbrev pub tally_of_entry : CostEntry fl → Tally
  tally_of_entry e =
      let served = e.discarded_reason == "" in
      record {
        model_calls = if served then 1 else 0;
        discarded_calls = if served then 0 else 1;
        unpriced_calls = if served && is_null e.cost_usd then 1 else 0;
        tokens = coalesce_int e.prompt_tokens +ℤ coalesce_int e.completion_tokens;
      }

  -- A call is charged to its run and its tenant, if it names a run.
  abbrev pub charge : String × CostEntry fl → Account → Account
  charge (tenant, e) account t r =
      if tenant == t && (e.run_id == r && not (e.run_id == ""))
      then plus_tally (account t r) (tally_of_entry e)
      else account t r

  abbrev pub charge_all : List (String × CostEntry fl) → Account → Account
  charge_all [] account = account
  charge_all (call ∷ calls) account = charge_all calls (charge call account)

  abbrev pub record_all : List (String × CostEntry fl) → List (CostRow fl) → List (CostRow fl)
  record_all [] rows = rows
  record_all (call ∷ calls) rows = record_all calls (record_entry fl false call.0 call.1 rows)

  abbrev pub tally_of : RunSpend fl → Tally
  tally_of s = record {
    model_calls = s.model_calls;
    discarded_calls = s.discarded_calls;
    unpriced_calls = s.unpriced_calls;
    tokens = s.tokens;
  }

  abbrev pub account_of : fl.Float → List (CostRow fl) → Account
  account_of none_spent rows t r = tally_of (spend_of fl none_spent (keep (of_run fl t r) rows))

  count_if-append :
      (p : CostRow fl → Bool) (rows : List (CostRow fl)) (x : CostRow fl)
      → count_if p (rows ++ x ∷ []) ≡ count_if p rows + (if p x then 1 else 0)
  count_if-append p [] x = ground arith
  count_if-append p (y ∷ rows) x = ground (arith, count_if-append p rows x)

  sum_ints-append :
      (f : CostRow fl → ℤ) (rows : List (CostRow fl)) (x : CostRow fl)
      → sum_ints fl f (rows ++ x ∷ []) ≡ sum_ints fl f rows +ℤ f x
  sum_ints-append f [] x = +ℤ_zero (f x) ∙ sym (zero_+ℤ (f x))
  sum_ints-append f (y ∷ rows) x =
      ap (λ n. f y +ℤ n) (sum_ints-append f rows x)
      ∙ sym (+ℤ_assoc (f y) (sum_ints fl f rows) (f x))

  keep-snoc :
      (p : CostRow fl → Bool) (rows : List (CostRow fl)) (x : CostRow fl)
      → keep p (rows ++ x ∷ []) ≡ (if p x then keep p rows ++ x ∷ [] else keep p rows)
  keep-snoc p [] x = ground arith
  keep-snoc p (y ∷ rows) x = ground (arith, keep-snoc p rows x)

  of_run-cost_row :
      (t r tenant : String) (e : CostEntry fl)
      → of_run fl t r (cost_row fl tenant e)
        ≡ (tenant == t && (e.run_id == r && not (e.run_id == "")))
  of_run-cost_row t r tenant e = ground arith

  tally_of-append :
      (none_spent : fl.Float) (rows : List (CostRow fl)) (tenant : String) (e : CostEntry fl)
      → tally_of (spend_of fl none_spent (rows ++ cost_row fl tenant e ∷ []))
        ≡ plus_tally (tally_of (spend_of fl none_spent rows)) (tally_of_entry e)
  unfolding spend_of
  tally_of-append none_spent rows tenant e =
      let x = cost_row fl tenant e in
      let served : is_served fl x ≡ (e.discarded_reason == "") = ground arith in
      let calls = count_if-append (is_served fl) rows x in
      let discarded = count_if-append (λ r. not (is_served fl r)) rows x in
      let unpriced = count_if-append (λ r. is_null r.cost_usd && is_served fl r) rows x in
      let tokens = sum_ints-append (tokens_of fl) rows x in
      ground (arith, served, calls, discarded, unpriced, tokens)

  account_of-record_entry :
      (none_spent : fl.Float) (call : String × CostEntry fl) (rows : List (CostRow fl))
      (t r : String)
      → account_of none_spent (record_entry fl false call.0 call.1 rows) t r
        ≡ charge call (account_of none_spent rows) t r
  unfolding record_entry
  account_of-record_entry none_spent (tenant, e) rows t r = ground (
    arith,
    keep-snoc (of_run fl t r) rows (cost_row fl tenant e),
    of_run-cost_row t r tenant e,
    tally_of-append none_spent (keep (of_run fl t r) rows) tenant e,
  )

  account_of-record_all :
      (none_spent : fl.Float) (calls : List (String × CostEntry fl)) (rows : List (CostRow fl))
      (t r : String)
      → account_of none_spent (record_all calls rows) t r
        ≡ charge_all calls (account_of none_spent rows) t r
  account_of-record_all none_spent [] rows t r = refl
  account_of-record_all none_spent (call ∷ calls) rows t r =
      account_of-record_all none_spent calls (record_entry fl false call.0 call.1 rows) t r
      ∙ ap (λ account. charge_all calls account t r)
          (fun_ext (λ t'. fun_ext (λ r'. account_of-record_entry none_spent call rows t' r')))

  -- What SpendForRun answers after any calls were recorded, of all tenants and runs and where no
  -- statement fails, is what an account says that charges each call to the run and the tenant that
  -- it names: how many calls were served, were discarded and have no known cost, and the tokens of
  -- all of them.
  pub spend_for_run-record_all :
      (none_spent : fl.Float) (calls : List (String × CostEntry fl)) (rows : List (CostRow fl))
      (t r : String)
      → (s : RunSpend fl) × (spend_for_run fl none_spent false t r (record_all calls rows) ≡ some s)
        × (tally_of s ≡ charge_all calls (account_of none_spent rows) t r)
  unfolding spend_for_run
  spend_for_run-record_all none_spent calls rows t r = (
    spend_of fl none_spent (keep (of_run fl t r) (record_all calls rows)),
    refl,
    account_of-record_all none_spent calls rows t r,
  )
