-- ===== src/CircuitBreaker.antt =====
-- go/internal/circuitbreaker/breaker.go: the windows of outcomes of each agent version, and when one
-- trips. The mutex makes the calls follow one another.
pub mod Windows
pub mod Trips
use aeon_agent_harness.Prelude.{
  ℕ, suc, ◌+◌, ◌-◌, String, Bool, true, false, ◌&&◌, not, Option, none, some, List, [], ◌∷◌, ◌++◌,
  ltb, leb, length, count_if, drop, if◌then◌else◌, ◌==◌, string_comparable, pair_comparable,
}
use aeon_agent_harness.Prelude.Dict.{lookup, insert, remove}
use aeon_agent_harness.Prelude.Int.{ℤ, pos, negsuc, pos_part, ltb_ℤ}

-- Go's float64: the operations that the breaker uses, and `>` as a test.
pub record Floats : Type 1 where
  pub Float : Type 0
  pub zero_float : Float
  pub plus : Float → Float → Float
  pub divide : Float → Float → Float
  pub of_int : ℕ → Float
  pub exceeds : Float → Float → Bool
  -- 0.5
  pub half : Float

pub record Thresholds (fl : Floats) : Type 0 where
  pub window_size : ℤ
  pub min_samples : ℤ
  pub max_failure_rate : fl.Float
  pub max_avg_cost_usd : fl.Float

pub record Observation (fl : Floats) : Type 0 where
  pub success : Bool
  pub cost_usd : Option fl.Float

-- The reason of a trip, with the numbers that its text gives.
pub data Reason (fl : Floats) : Type 0 where
  already_quarantined : Reason fl
  failure_rate : fl.Float → ℕ → fl.Float → Reason fl
  average_cost : fl.Float → ℕ → fl.Float → ℕ → Reason fl

-- `none` is a verdict that is not tripped.
abbrev pub Verdict : Floats → Type 0
Verdict fl = Option (Reason fl)

abbrev pub AgentKey : Type 0
AgentKey = String × String

pub record Breaker (fl : Floats) : Type 0 where
  pub thresholds : Thresholds fl
  pub windows : List (AgentKey × List (Observation fl))
  pub quarantine : List (AgentKey × Bool)

module _ (fl : Floats) where
  abbrev pub default_thresholds : Thresholds fl
  default_thresholds = record {
    window_size = pos 10;
    min_samples = pos 5;
    max_failure_rate = fl.half;
    max_avg_cost_usd = fl.zero_float;
  }

  unfoldable pub new_breaker : Thresholds fl → Breaker fl
  new_breaker t = record {
    thresholds = if ltb_ℤ (pos 0) t.window_size then t else default_thresholds;
    windows = [];
    quarantine = [];
  }

  -- b.quarantine[key]
  unfoldable pub is_quarantined : Breaker fl → AgentKey → Bool
  unfolding lookup
  is_quarantined b key = elim (lookup key b.quarantine) [ none ↦ false | some q ↦ q ]

  -- The slice of the last n.
  abbrev pub last_of_window : ℕ → List (Observation fl) → List (Observation fl)
  last_of_window n xs = if ltb n (length xs) then drop (length xs - n) xs else xs

  -- b.windows[key]
  unfoldable pub window_of : Breaker fl → AgentKey → List (Observation fl)
  unfolding lookup
  window_of b key = elim (lookup key b.windows) [ none ↦ [] | some w ↦ w ]

  unfoldable pub slide : Breaker fl → AgentKey → Observation fl → List (Observation fl)
  slide b key obs = last_of_window (pos_part b.thresholds.window_size) (window_of b key ++ obs ∷ [])

  abbrev failed : Observation fl → Bool
  failed o = not o.success

  abbrev add_cost : fl.Float → Observation fl → fl.Float
  add_cost total o = elim o.cost_usd [ none ↦ total | some c ↦ fl.plus total c ]

  abbrev priced : Observation fl → Bool
  priced o = elim o.cost_usd [ none ↦ false | some _ ↦ true ]

  total_cost : fl.Float → List (Observation fl) → fl.Float
  total_cost total [] = total
  total_cost total (o ∷ os) = total_cost (add_cost total o) os

  -- The average over the priced runs, where some are and the threshold is set.
  unfoldable pub too_costly : Thresholds fl → List (Observation fl) → Verdict fl
  unfolding total_cost
  too_costly t window =
      let n = count_if priced window in
      let average = fl.divide (total_cost fl.zero_float window) (fl.of_int n) in
      if fl.exceeds t.max_avg_cost_usd fl.zero_float && ltb 0 n
      then (if fl.exceeds average t.max_avg_cost_usd
          then some (average_cost average n t.max_avg_cost_usd (length window - n))
          else none)
      else none

  -- What a full enough window says.
  unfoldable pub judge : Thresholds fl → List (Observation fl) → Verdict fl
  judge t window =
      let rate = fl.divide (fl.of_int (count_if failed window)) (fl.of_int (length window)) in
      if ltb_ℤ (pos (length window)) t.min_samples
      then none
      else if fl.exceeds rate t.max_failure_rate
      then some (failure_rate rate (length window) t.max_failure_rate)
      else too_costly t window

  abbrev pub with_verdict : AgentKey → Breaker fl → Verdict fl → Breaker fl
  with_verdict key b none = b
  with_verdict key b (some _) = record b { quarantine = insert key true b.quarantine }

  unfoldable pub record_outcome : AgentKey → Observation fl → Breaker fl → Breaker fl × Verdict fl
  record_outcome key obs b =
      if is_quarantined b key
      then (b, some already_quarantined)
      else let window = slide b key obs in
        let verdict = judge b.thresholds window in
        (with_verdict key (record b { windows = insert key window b.windows }) verdict, verdict)

  unfoldable pub reset : AgentKey → Breaker fl → Breaker fl
  reset key b = record b { windows = remove key b.windows; quarantine = remove key b.quarantine }
