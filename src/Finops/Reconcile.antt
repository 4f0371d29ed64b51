-- ===== src/Finops/Reconcile.antt =====
-- go/internal/finops/reconcile.go: Reconcile.
use aeon_agent_harness.Prelude.{
  ℕ, suc, String, Bool, true, false, ◌&&◌, not, Option, none, some, List, [], ◌∷◌, ◌++◌, length,
  if◌then◌else◌, ◌==◌, string_comparable, nat_comparable,
}
use aeon_agent_harness.Prelude.Int.{ℤ, pos_part, neg_part}
use aeon_agent_harness.Finops.{Dollars}

-- Divergence.Kind
pub data DivergenceKind : Type 0 where
  replay_billed missing other_model tokens_unmeasured other_tokens : DivergenceKind
  self_inconsistent unpriced_here unpriced_there other_cost : DivergenceKind

pub record Divergence : Type 0 where
  pub request_id : String
  pub kind : DivergenceKind

pub record Report : Type 0 where
  pub compared : ℕ
  pub agreed : ℕ
  pub divergences : List Divergence
  pub unreconciled : ℕ

abbrev pub empty_report : Report
empty_report = record { compared = 0; agreed = 0; divergences = []; unreconciled = 0 }

abbrev pub same_int : ℤ → ℤ → Bool
same_int a b = pos_part a == pos_part b && neg_part a == neg_part b

module _ (fl : Dollars) where
  pub record PlatformUsage : Type 0 where
    pub request_id : String
    pub model : String
    pub prompt_tokens : ℤ
    pub completion_tokens : ℤ
    pub cost_usd : Option fl.Float
    pub prompt_price_per_1m : Option fl.Float
    pub completion_price_per_1m : Option fl.Float

  pub record LedgerRow : Type 0 where
    pub provider : String
    pub model : String
    pub prompt_tokens : Option ℤ
    pub completion_tokens : Option ℤ
    pub cost_usd : Option fl.Float
    pub provider_request_id : String
    pub idempotent_replay_of : String

  -- The one divergence where a test holds.
  abbrev pub diverges : Bool → String → DivergenceKind → List Divergence
  diverges true id kind = record { request_id = id; kind = kind } ∷ []
  diverges false id kind = []

  abbrev pub differ : fl.Float → fl.Float → Bool
  differ a b = fl.exceeds (fl.absolute (fl.minus a b)) fl.cost_tolerance

  unfoldable pub compare_tokens : String → Option ℤ → Option ℤ → PlatformUsage → List Divergence
  compare_tokens id (some p) (some c) usage =
      diverges (not (same_int p usage.prompt_tokens && same_int c usage.completion_tokens)) id
        other_tokens
  compare_tokens id _ _ usage = diverges true id tokens_unmeasured

  -- The platform's cost for its own tokens at its own rates.
  abbrev pub recomputed : PlatformUsage → fl.Float → fl.Float → fl.Float
  recomputed usage p c =
      fl.divide
        (fl.plus (fl.times (fl.of_int usage.prompt_tokens) p)
          (fl.times (fl.of_int usage.completion_tokens) c))
        fl.million

  unfoldable pub compare_itself :
      String → PlatformUsage → Option fl.Float → Option fl.Float → Option fl.Float → List Divergence
  compare_itself id usage (some cost) (some p) (some c) =
      diverges (differ cost (recomputed usage p c)) id self_inconsistent
  compare_itself id usage _ _ _ = []

  unfoldable pub compare_costs : String → Option fl.Float → Option fl.Float → List Divergence
  compare_costs id none none = []
  compare_costs id none (some theirs) = diverges true id unpriced_here
  compare_costs id (some ours) none = diverges true id unpriced_there
  compare_costs id (some ours) (some theirs) = diverges (differ ours theirs) id other_cost

  -- What a row and the platform's usage disagree on, in the order of the code.
  unfoldable pub compare_usage : LedgerRow → PlatformUsage → List Divergence
  compare_usage row usage =
      let id = row.provider_request_id in
      diverges (not (row.model == usage.model)) id other_model
      ++ (compare_tokens id row.prompt_tokens row.completion_tokens usage
          ++ (compare_itself id usage usage.cost_usd usage.prompt_price_per_1m
                usage.completion_price_per_1m
              ++ compare_costs id row.cost_usd usage.cost_usd))

  abbrev pub add_compared : List Divergence → Report → Report
  add_compared found report =
      let all = report.divergences ++ found in
      record {
        compared = suc report.compared;
        agreed =
            if length all == length report.divergences then suc report.agreed else report.agreed;
        divergences = all;
        unreconciled = report.unreconciled;
      }

  abbrev pub costs_nothing : Option fl.Float → Bool
  costs_nothing none = false
  costs_nothing (some cost) = fl.is_zero cost

  abbrev pub add_missing : String → Report → Report
  add_missing id report = record report {
    unreconciled = suc report.unreconciled;
    divergences = report.divergences ++ diverges true id missing;
  }

  abbrev pub add_replay : LedgerRow → Report → Report
  add_replay row report =
      if costs_nothing row.cost_usd
      then record report { compared = suc report.compared; agreed = suc report.agreed }
      else record report {
        compared = suc report.compared;
        divergences = report.divergences ++ diverges true row.provider_request_id replay_billed;
      }

  -- The body of the loop; `source` gives the platform's usage, `none` for an error.
  unfoldable pub reconcile_row : (String → Option PlatformUsage) → LedgerRow → Report → Report
  reconcile_row source row report =
      if row.provider_request_id == ""
      then record report { unreconciled = suc report.unreconciled }
      else if not (row.idempotent_replay_of == "")
      then add_replay row report
      else elim (source row.provider_request_id) [
        | none ↦ add_missing row.provider_request_id report
        | some usage ↦ add_compared (compare_usage row usage) report
      ]

  unfoldable pub reconcile_rows : (String → Option PlatformUsage) → List LedgerRow → Report → Report
  reconcile_rows source [] report = report
  reconcile_rows source (row ∷ rows) report =
      reconcile_rows source rows (reconcile_row source row report)

  unfoldable pub reconcile : (String → Option PlatformUsage) → List LedgerRow → Report
  unfolding reconcile_rows
  reconcile source rows = reconcile_rows source rows empty_report
