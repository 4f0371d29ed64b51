-- ===== src/CircuitBreaker/Trips.antt =====
-- When an agent version is quarantined.
use aeon_agent_harness.Prelude.{
  Bool, true, false, none, some, [], ◌≡◌, arith, if◌then◌else◌, ◌==◌, string_comparable,
  pair_comparable, Option-cases, eq_iff, inl, inr,
}
use aeon_agent_harness.Prelude.Dict.{lookup-insert, lookup-remove}
use aeon_agent_harness.CircuitBreaker.{
  Floats, Observation, Breaker, Verdict, AgentKey, is_quarantined, record_outcome, reset, judge,
  window_of, slide,
}

module _ (fl : Floats) where
  abbrev pub tripped : Verdict fl → Bool
  tripped none = false
  tripped (some _) = true

  -- After an outcome is recorded, the version is quarantined exactly if the verdict is that it
  -- tripped, and every other version is quarantined exactly if it was.
  pub is_quarantined-record_outcome :
      (b : Breaker fl) (key other : AgentKey) (obs : Observation fl)
      → is_quarantined fl (record_outcome fl key obs b).0 other ≡ (
          if key == other
          then tripped (record_outcome fl key obs b).1
          else is_quarantined fl b other)
  unfolding record_outcome is_quarantined
  is_quarantined-record_outcome b key other obs =
      elim (Option-cases (judge fl b.thresholds (slide fl b key obs))) [
        | inl calm ↦ ground (arith, calm, eq_iff key.0 other.0, eq_iff key.1 other.1)
        | inr (why, trips) ↦ ground (
          arith,
          trips,
          lookup-insert key other true b.quarantine,
          eq_iff key.0 other.0,
          eq_iff key.1 other.1,
        )
      ]

  -- A reset ends the quarantine of its version, empties its window, and touches no other version.
  pub is_quarantined-reset :
      (b : Breaker fl) (key other : AgentKey)
      → (is_quarantined fl (reset fl key b) other
          ≡ (if key == other then false else is_quarantined fl b other))
        × (window_of fl (reset fl key b) other
            ≡ (if key == other then [] else window_of fl b other))
  unfolding reset is_quarantined window_of
  is_quarantined-reset b key other = (
    ground (arith, lookup-remove key other b.quarantine),
    ground (arith, lookup-remove key other b.windows),
  )
