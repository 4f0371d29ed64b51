-- ===== src/Checkpoint/Outcome.antt =====
-- go/internal/checkpoint/checkpoint.go: why a step reached its completed phase, and who decided.
pub mod RoundTrip
pub mod Reordered
use aeon_agent_harness.Prelude.{
  String, Bool, true, false, ◌&&◌, ◌||◌, not, Option, none, some, if◌then◌else◌, ◌==◌,
  string_comparable,
}
use aeon_agent_harness.Json.{
  Json, null, text, object, Members, no_members, member, RawMessage, absent, malformed, valid,
  is_absent, names_field,
}
use aeon_agent_harness.Checkpoint.{Record}
use aeon_agent_harness.Checkpoint.State.{RunState, completed}

-- `Outcome` is a string type in Go.
abbrev pub outcome_result : String
outcome_result = "result"

abbrev pub outcome_denied_by_policy : String
outcome_denied_by_policy = "denied_by_policy"

abbrev pub outcome_approval_granted : String
outcome_approval_granted = "approval_granted"

abbrev pub outcome_approval_denied : String
outcome_approval_denied = "approval_denied"

abbrev pub outcome_approval_expired : String
outcome_approval_expired = "approval_expired"

unfoldable pub denied : String → Bool
denied o =
    o == outcome_denied_by_policy || o == outcome_approval_denied || o == outcome_approval_expired

pub record OutcomeEnvelope : Type 0 where
  pub outcome : String
  pub reason : String
  pub decided_by : String
  pub result : RawMessage

abbrev empty_envelope : OutcomeEnvelope
empty_envelope = record { outcome = ""; reason = ""; decided_by = ""; result = absent }

-- A string member that is "omitempty".
abbrev text_member : String → String → Members → Members
text_member key s ms = if s == "" then ms else member key (text s) ms

abbrev raw_member : String → RawMessage → Members → Members
raw_member key (valid j) ms = member key j ms
raw_member key _ ms = ms

abbrev is_malformed : RawMessage → Bool
is_malformed (malformed _) = true
is_malformed _ = false

-- json.Marshal of an envelope; `none` where it fails, on a result that is no JSON.
unfoldable pub outcome_payload_decided_by :
    String → String → String → RawMessage → Option RawMessage
outcome_payload_decided_by outcome reason decided_by result =
    if is_malformed result
    then none
    else some (
        valid (
          object (
            member "outcome" (text outcome) (
              text_member "reason" reason
                (text_member "decided_by" decided_by (raw_member "result" result no_members))))))

unfoldable pub outcome_payload : String → String → RawMessage → Option RawMessage
unfolding outcome_payload_decided_by
outcome_payload outcome reason result = outcome_payload_decided_by outcome reason "" result

-- What json.Unmarshal stores in a string field: null changes nothing, any other value is an error.
abbrev string_field : Json → String → String × Bool
string_field (text s) old = (s, true)
string_field null old = (old, true)
string_field _ old = (old, false)

-- One member of the object; the flag says that no error was met.
abbrev read_member : String → Json → OutcomeEnvelope → OutcomeEnvelope × Bool
read_member key j env =
    if names_field key "outcome"
    then (let (s, fits) = string_field j env.outcome in (record env { outcome = s }, fits))
    else if names_field key "reason"
    then (let (s, fits) = string_field j env.reason in (record env { reason = s }, fits))
    else if names_field key "decided_by"
    then (let (s, fits) = string_field j env.decided_by in (record env { decided_by = s }, fits))
    else if names_field key "result"
    then (record env { result = valid j }, true)
    else (env, true)

unfoldable read_members : Members → OutcomeEnvelope → Bool → OutcomeEnvelope × Bool
unfolding names_field
read_members no_members env fits = (env, fits)
read_members (member key j ms) env fits =
    let (env', fits') = read_member key j env in read_members ms env' (fits && fits')

abbrev checked : OutcomeEnvelope × Bool → Option OutcomeEnvelope
checked (env, fits) = if fits then some env else none

-- json.Unmarshal into an envelope; `none` where it returns an error.
unfoldable pub read_envelope : RawMessage → Option OutcomeEnvelope
unfolding read_members
read_envelope (valid (object ms)) = checked (read_members ms empty_envelope true)
read_envelope (valid null) = some empty_envelope
read_envelope _ = none

abbrev concluded : RawMessage → String × String
concluded payload =
    if is_absent payload then (outcome_result, "") else elim (read_envelope payload) [
      | none ↦ (outcome_result, "")
      | some env ↦ if env.outcome == "" then (outcome_result, "") else (env.outcome, env.reason)
    ]

-- `none` is Go's false: the step has not concluded.
unfoldable pub step_outcome : RunState → String → String → Option (String × String)
unfolding completed read_envelope
step_outcome s sub_run_id step_id = elim (completed s sub_run_id step_id) [
  | none ↦ none
  | some r ↦ some (concluded r.payload)
]

abbrev decider : RawMessage → String × Bool
decider payload = if is_absent payload then ("", false) else elim (read_envelope payload) [
  | none ↦ ("", false)
  | some env ↦ (env.decided_by, not (env.decided_by == ""))
]

unfoldable pub approval_actor : RunState → String → String → String × Bool
unfolding completed read_envelope
approval_actor s sub_run_id step_id = elim (completed s sub_run_id step_id) [
  | none ↦ ("", false)
  | some r ↦ decider r.payload
]

abbrev pub approval_step : String → String
approval_step approval_id = Prim.Native.String.◌++◌ "approval:" approval_id

abbrev pub outcome_for_approval : Bool → String
outcome_for_approval true = outcome_approval_granted
outcome_for_approval false = outcome_approval_denied
