-- ===== src/Examples/Breakers.antt =====
-- A breaker with a window of two, over numbers in hundredths.
use aeon_agent_harness.Prelude.{
  ℕ, ◌+◌, ◌*◌, ◌/◌, true, false, none, List, [], ◌∷◌, ◌++◌, ◌≡◌, refl, ltb, if◌then◌else◌, ◌==◌,
  string_comparable, pair_comparable,
}
use aeon_agent_harness.Prelude.Dict.{lookup, insert}
use aeon_agent_harness.Prelude.Int.{pos}
use aeon_agent_harness.CircuitBreaker.{
  Floats, Thresholds, new_breaker, Observation, Breaker, AgentKey, new_breaker, is_quarantined,
  record_outcome, window_of, last_of_window, judge, slide, too_costly,
}
use aeon_agent_harness.CircuitBreaker.Trips.{tripped, is_quarantined-record_outcome}
use aeon_agent_harness.CircuitBreaker.Windows.{record_all, history, window_of-record_all}

abbrev pub hundredths : Floats
hundredths = record {
  Float = ℕ;
  zero_float = 0;
  plus = λ a b. a + b;
  divide = λ a b. (100 * a) / b;
  of_int = λ n. 100 * n;
  exceeds = λ a b. ltb b a;
  half = 50;
}

abbrev limits : Thresholds hundredths
limits = record {
  window_size = pos 2;
  min_samples = pos 2;
  max_failure_rate = 50;
  max_avg_cost_usd = 0;
}

abbrev breaker : Breaker hundredths
breaker = record { thresholds = limits; windows = []; quarantine = [] }

breaker_is_new : new_breaker hundredths limits ≡ breaker
unfolding new_breaker
breaker_is_new = refl

abbrev good : Observation hundredths
good = record { success = true; cost_usd = none }

abbrev pub bad : Observation hundredths
bad = record { success = false; cost_usd = none }

abbrev agent : AgentKey
agent = ("a", "1")

abbrev other_agent : AgentKey
other_agent = ("b", "1")

abbrev events : List (AgentKey × Observation hundredths)
events = (agent, bad) ∷ (other_agent, bad) ∷ (agent, good) ∷ (agent, good) ∷ []

calm : is_quarantined hundredths (record_all hundredths events breaker) agent ≡ false
unfolding record_all record_outcome is_quarantined judge slide window_of lookup insert too_costly
calm = refl

window_of-record_all_example :
    window_of hundredths (record_all hundredths events breaker) agent
    ≡ last_of_window hundredths 2 ([] ++ history hundredths agent events)
window_of-record_all_example =
    window_of-record_all hundredths events breaker agent [] (unfold window_of lookup in refl) calm

abbrev pub once_bad : Breaker hundredths
once_bad = (record_outcome hundredths agent bad breaker).0

trips : tripped hundredths (record_outcome hundredths agent bad once_bad).1 ≡ true
unfolding record_outcome is_quarantined judge slide window_of lookup insert
trips = refl

is_quarantined-record_outcome_example :
    is_quarantined hundredths (record_outcome hundredths agent bad once_bad).0 agent ≡ (
      if agent == agent
      then tripped hundredths (record_outcome hundredths agent bad once_bad).1
      else is_quarantined hundredths once_bad agent)
is_quarantined-record_outcome_example =
    is_quarantined-record_outcome hundredths once_bad agent agent bad
