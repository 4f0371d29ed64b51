-- ===== src/Checkpoint/Outcome/RoundTrip.antt =====
-- What an outcome's payload gives back when a state is asked how the step concluded.
use aeon_agent_harness.Prelude.{
  String, true, false, not, none, some, ◌≡◌, refl, ◌≢◌, ◌==◌, string_comparable, arith, eq_iff,
  Option-cases, inl, inr, ◌⊎◌, sym, ap, ◌∙◌,
}
use aeon_agent_harness.Json.{is_absent, RawMessage, names_field}
use aeon_agent_harness.Checkpoint.{Record}
use aeon_agent_harness.Checkpoint.State.{RunState, completed}
use aeon_agent_harness.Checkpoint.Outcome.{
  OutcomeEnvelope, outcome_payload_decided_by, read_envelope, step_outcome, approval_actor, denied,
  outcome_result, concluded,
}

-- json.Unmarshal gives back what json.Marshal was given.
pub read_envelope-outcome_payload :
    (outcome reason decided_by : String) (result p : RawMessage)
    → outcome_payload_decided_by outcome reason decided_by result ≡ some p
    → read_envelope p
      ≡ some
          (record { outcome = outcome; reason = reason; decided_by = decided_by; result = result })
unfolding outcome_payload_decided_by read_envelope names_field
read_envelope-outcome_payload outcome reason decided_by result p h =
    ground (arith, eq_iff reason "", eq_iff decided_by "")

outcome_payload-valid :
    (outcome reason decided_by : String) (result p : RawMessage)
    → outcome_payload_decided_by outcome reason decided_by result ≡ some p
    → is_absent p ≡ false
unfolding outcome_payload_decided_by
outcome_payload-valid outcome reason decided_by result p h = ground arith

-- A completed step whose payload was made by OutcomePayloadDecidedBy, with an outcome that is not
-- empty, is read back as it was written: its outcome and reason, and who decided, where a decider
-- counts as recorded exactly if the name is not empty.
pub step_outcome-outcome_payload :
    (s : RunState) (sub step : String) (r : Record) (outcome reason decided_by : String)
    (result : RawMessage)
    → completed s sub step ≡ some r
    → outcome_payload_decided_by outcome reason decided_by result ≡ some r.payload
    → outcome ≢ ""
    → (step_outcome s sub step ≡ some (outcome, reason))
      × (approval_actor s sub step ≡ (decided_by, not (decided_by == "")))
unfolding step_outcome approval_actor
step_outcome-outcome_payload s sub step r outcome reason decided_by result there made named =
    let back = read_envelope-outcome_payload outcome reason decided_by result r.payload made in
    let some_bytes = outcome_payload-valid outcome reason decided_by result r.payload made in
    (
      ground (arith, there, back, some_bytes, eq_iff outcome ""),
      ground (arith, there, back, some_bytes),
    )

-- A completed step with an envelope that names an outcome reads as that outcome.
pub step_outcome-read_envelope :
    (s : RunState) (sub step : String) (r : Record) (env : OutcomeEnvelope)
    → completed s sub step ≡ some r
    → is_absent r.payload ≡ false
    → read_envelope r.payload ≡ some env
    → env.outcome ≢ ""
    → step_outcome s sub step ≡ some (env.outcome, env.reason)
unfolding step_outcome
step_outcome-read_envelope s sub step r env there bytes back named =
    ground (arith, there, back, bytes, eq_iff env.outcome "")

-- A completed step with an envelope names the decider that the envelope names.
pub approval_actor-read_envelope :
    (s : RunState) (sub step : String) (r : Record) (env : OutcomeEnvelope)
    → completed s sub step ≡ some r
    → is_absent r.payload ≡ false
    → read_envelope r.payload ≡ some env
    → approval_actor s sub step ≡ (env.decided_by, not (env.decided_by == ""))
unfolding approval_actor
approval_actor-read_envelope s sub step r env there bytes back = ground (arith, there, back, bytes)

denied-result : denied outcome_result ≡ false
unfolding denied
denied-result = refl

concluded_of_none : (p : RawMessage) → read_envelope p ≡ none → concluded p ≡ (outcome_result, "")
concluded_of_none p h = ground (arith, h)

concluded_of_some :
    (p : RawMessage) (env : OutcomeEnvelope) (outcome reason : String)
    → read_envelope p ≡ some env
    → concluded p ≡ (outcome, reason)
    → ((env.outcome ≡ outcome) × (env.reason ≡ reason)) ⊎ (outcome ≡ outcome_result)
unfolding read_envelope
concluded_of_some p env outcome reason h k = ground (arith, h, k)

-- A step is read as denied only from a payload that says so: its record is there, and is an
-- envelope that names that outcome. What is no envelope reads as a result.
pub step_outcome-denied :
    (s : RunState) (sub step : String) (outcome reason : String)
    → step_outcome s sub step ≡ some (outcome, reason)
    → denied outcome ≡ true
    → (r : Record) × (completed s sub step ≡ some r)
      × (env : OutcomeEnvelope) × (read_envelope r.payload ≡ some env)
      × (env.outcome ≡ outcome)
      × (env.reason ≡ reason)
unfolding step_outcome
step_outcome-denied s sub step outcome reason h refused =
    elim (Option-cases (completed s sub step)) [
      | inl missing ↦ absurd (ground (arith, missing, h))
      | inr (r, there) ↦
          let says : concluded r.payload ≡ (outcome, reason) = ground (arith, there, h) in
          elim (Option-cases (read_envelope r.payload)) [
            | inl other ↦
                let plain : outcome ≡ outcome_result =
                  ap (λ x. x.0) (sym says ∙ concluded_of_none r.payload other) in
                cc (ap denied plain, denied-result)
            | inr (env, back) ↦ elim (concluded_of_some r.payload env outcome reason back says) [
              | inl (same, because) ↦ (r, there, env, back, same, because)
              | inr plain ↦ cc (ap denied plain, denied-result)
            ]
          ]
    ]
