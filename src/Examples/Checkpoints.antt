-- ===== src/Examples/Checkpoints.antt =====
-- A run of two steps, the second of which was approved by `ana`.
use aeon_agent_harness.Prelude.{some, [], ◌∷◌, ◌≡◌, refl, ◌&&◌, not, any, string_comparable}
use aeon_agent_harness.Prelude.Dict.{lookup, row, insert}
use aeon_agent_harness.Json.{text, object, member, no_members, valid, absent, RawMessage}
use aeon_agent_harness.Checkpoint.{Record, phase_attempted, phase_completed}
use aeon_agent_harness.Checkpoint.State.{RunState, new_run_state, completed, attempted}
use aeon_agent_harness.Checkpoint.Steps.{
  is_of, IsLatest, completed-IsLatest, attempted-new_run_state,
}
use aeon_agent_harness.Checkpoint.Outcome.{
  denied, read_envelope, step_outcome, outcome_approval_granted, outcome_denied_by_policy,
  OutcomeEnvelope,
}
use aeon_agent_harness.Checkpoint.Outcome.RoundTrip.{step_outcome-denied}
use aeon_agent_harness.Examples.Journals.{entry}

abbrev granted : RawMessage
granted = valid (
    object (
      member "outcome" (text outcome_approval_granted)
        (member "reason" (text "ok") (member "decided_by" (text "ana") no_members))))

abbrev refused : RawMessage
refused = valid (object (member "outcome" (text outcome_denied_by_policy) no_members))

abbrev tried : Record
tried = record { entry = entry "s1" phase_attempted absent; seq = 0; recorded_at = 5 }

abbrev done : Record
done = record { entry = entry "s1" phase_completed granted; seq = 1; recorded_at = 6 }

abbrev refusal : Record
refusal = record { entry = entry "s2" phase_completed refused; seq = 2; recorded_at = 7 }

abbrev run : RunState
run = new_run_state "run-1" (done ∷ tried ∷ refusal ∷ [])

completed-done : completed run "" "s1" ≡ some done
unfolding completed new_run_state row lookup insert
completed-done = refl

completed-refusal : completed run "" "s2" ≡ some refusal
unfolding completed new_run_state row lookup insert
completed-refusal = refl

completed-IsLatest_example : IsLatest ("", "s1") phase_completed done (done ∷ tried ∷ refusal ∷ [])
completed-IsLatest_example =
    completed-IsLatest "run-1" "" "s1" (done ∷ tried ∷ refusal ∷ []) done completed-done

attempted-new_run_state_example : attempted (new_run_state "run-1" (tried ∷ [])) "" "s1" ≡ (
    any (is_of ("", "s1") phase_attempted) (tried ∷ [])
    && not (any (is_of ("", "s1") phase_completed) (tried ∷ [])))
attempted-new_run_state_example = attempted-new_run_state "run-1" "" "s1" (tried ∷ [])

refusal_outcome : step_outcome run "" "s2" ≡ some (outcome_denied_by_policy, "")
unfolding step_outcome new_run_state row lookup insert
refusal_outcome = refl

step_outcome-denied_example :
    (r : Record) × (completed run "" "s2" ≡ some r)
    × (env : OutcomeEnvelope) × (read_envelope r.payload ≡ some env)
    × (env.outcome ≡ outcome_denied_by_policy)
    × (env.reason ≡ "")
step_outcome-denied_example =
    step_outcome-denied run "" "s2" outcome_denied_by_policy "" refusal_outcome
      (unfold denied in refl)
