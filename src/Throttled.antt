-- ===== src/Throttled.antt =====
-- go/internal/providers/throttled.go: an error that asks to wait.
use aeon_agent_harness.Prelude.{
  String, Bool, true, false, Option, none, some, List, [], ◌∷◌, if◌then◌else◌,
}
use aeon_agent_harness.Finops.{Dollars}

module _ (fl : Dollars) where
  -- Without the error that it wraps.
  pub record Throttled : Type 0 where
    pub provider : String
    pub model : String
    pub scope : String
    pub retry_after_seconds : Option fl.Float

  -- The shorter of the wait so far and a throttle's own.
  abbrev pub shorter : Option fl.Float → Option fl.Float → Option fl.Float
  shorter wait none = wait
  shorter none (some s) = some s
  shorter (some w) (some s) = if fl.exceeds w s then some s else some w

  -- `throttle_of` is ThrottleOf, what errors.As finds in an error.
  module _ (throttle_of : String → Option Throttled) where
    abbrev pub soonest_from : List String → Option fl.Float → Bool → Option fl.Float × Bool
    soonest_from [] wait all = (wait, all)
    soonest_from (err ∷ errs) wait all = elim (throttle_of err) [
      | none ↦ soonest_from errs wait false
      | some t ↦ soonest_from errs (shorter wait t.retry_after_seconds) all
    ]

    unfoldable pub soonest_retry : List String → Option fl.Float × Bool
    soonest_retry [] = (none, false)
    soonest_retry (err ∷ errs) = soonest_from (err ∷ errs) none true

    abbrev pub throttles_of : List String → List Throttled
    throttles_of [] = []
    throttles_of (err ∷ errs) = elim (throttle_of err) [
      | none ↦ throttles_of errs
      | some t ↦ t ∷ throttles_of errs
    ]
