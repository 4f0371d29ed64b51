-- ===== src/KillSwitch.antt =====
-- go/internal/api/circuit_breaker_handlers.go: the routes over the breaker, the registry and the
-- broker of credentials.
pub mod Effects
use aeon_agent_harness.Prelude.{
  ℕ, String, Bool, true, false, Option, none, some, List, ◌⊎◌, inl, inr, if◌then◌else◌, ◌==◌,
  string_comparable,
}
use aeon_agent_harness.Auth.{Caller}
use aeon_agent_harness.CircuitBreaker.{Floats, Observation, Breaker, Reason, record_outcome, reset}
use aeon_agent_harness.Registry.{
  AgentRecord, RegistryError, not_found, not_released, RegistryFaults,
}
use aeon_agent_harness.Registry.Methods.{Gaps, quarantine, unquarantine}
use aeon_agent_harness.Secrets
use aeon_agent_harness.Secrets.{revoke_all_for_owner}

pub record Switches (fl : Floats) : Type 0 where
  pub agents : List AgentRecord
  pub breaker : Breaker fl
  -- `none` disables the revocation of credentials.
  pub secrets : Option Secrets.Broker

-- `tripped` comes with the reason, and each answer but the errors with the agent's record.
pub data SwitchResponse : Type 0 where
  unauthenticated bad_body not_tripped : SwitchResponse
  tripped : String → AgentRecord → SwitchResponse
  quarantined cleared : AgentRecord → SwitchResponse
  trip_failed quarantine_failed clearing_failed : RegistryError → SwitchResponse

abbrev quarantine_status : RegistryError → ℕ
quarantine_status not_found = 404
quarantine_status not_released = 409
quarantine_status _ = 500

abbrev clearing_status : RegistryError → ℕ
clearing_status not_found = 404
clearing_status _ = 500

unfoldable pub switch_status : SwitchResponse → ℕ
switch_status unauthenticated = 401
switch_status bad_body = 400
switch_status not_tripped = 200
switch_status (tripped _ _) = 200
switch_status (quarantined _) = 200
switch_status (cleared _) = 200
switch_status (trip_failed _) = 500
switch_status (quarantine_failed why) = quarantine_status why
switch_status (clearing_failed why) = clearing_status why

abbrev pub owner_of : String → String → String
owner_of name version = Prim.Native.String.◌++◌ name (Prim.Native.String.◌++◌ "@" version)

unfoldable pub revoke_credentials : String → String → Option Secrets.Broker → Option Secrets.Broker
revoke_credentials name version none = none
revoke_credentials name version (some b) = some (revoke_all_for_owner (owner_of name version) b).0

-- `text_of` prints a verdict's reason. `gaps` is what other calls do to the registry between the
-- statements of this one; none does anything to the breaker or to the broker while the request runs.
module _ (fl : Floats) (text_of : Reason fl → String) (faults : RegistryFaults) (gaps : Gaps)
    (now : ℕ) where
  unfoldable pub apply_quarantine :
      String → String → String → String → Switches fl → Switches fl × (RegistryError ⊎ AgentRecord)
  apply_quarantine tenant name version reason s =
      let (agents', answer) = quarantine faults gaps now tenant name version reason s.agents in
      let s' : Switches fl = record s { agents = agents' } in
      elim answer [
        | inl why ↦ (s', inl why)
        | inr rec ↦ (record s' { secrets = revoke_credentials name version s.secrets }, inr rec)
      ]

  -- What follows a verdict.
  unfoldable pub after_verdict :
      String → String → String → Option (Reason fl) → Switches fl → Switches fl × SwitchResponse
  after_verdict tenant name version none s = (s, not_tripped)
  after_verdict tenant name version (some why) s =
      let (s', answer) = apply_quarantine tenant name version (text_of why) s in
      (s', elim answer [ inl failed ↦ trip_failed failed | inr rec ↦ tripped (text_of why) rec ])

  unfoldable pub record_outcome_route :
      Option Caller
      → String
      → String
      → Option (Observation fl)
      → Switches fl
      → Switches fl × SwitchResponse
  record_outcome_route none name version body s = (s, unauthenticated)
  record_outcome_route (some caller) name version none s = (s, bad_body)
  record_outcome_route (some caller) name version (some obs) s =
      let (breaker', verdict) = record_outcome fl (name, version) obs s.breaker in
      after_verdict caller.tenant name version verdict (record s { breaker = breaker' })

  -- The body is the reason that it gives.
  unfoldable pub quarantine_route :
      Option Caller → String → String → Option String → Switches fl → Switches fl × SwitchResponse
  quarantine_route none name version body s = (s, unauthenticated)
  quarantine_route (some caller) name version none s = (s, bad_body)
  quarantine_route (some caller) name version (some given) s =
      let reason = if given == "" then "manual kill switch" else given in
      let (s', answer) = apply_quarantine caller.tenant name version reason s in
      (s', elim answer [ inl why ↦ quarantine_failed why | inr rec ↦ quarantined rec ])

  unfoldable pub unquarantine_route :
      Option Caller → String → String → Switches fl → Switches fl × SwitchResponse
  unquarantine_route none name version s = (s, unauthenticated)
  unquarantine_route (some caller) name version s =
      let (agents', answer) = unquarantine faults gaps now caller.tenant name version s.agents in
      let s' : Switches fl = record s { agents = agents' } in
      elim answer [
        | inl why ↦ (s', clearing_failed why)
        | inr rec ↦ (record s' { breaker = reset fl (name, version) s.breaker }, cleared rec)
      ]
