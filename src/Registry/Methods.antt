-- ===== src/Registry/Methods.antt =====
-- go/internal/store/agent_registry.go: the methods that change the registry.
use aeon_agent_harness.Prelude.{
  ℕ, String, true, false, ◌&&◌, not, Option, none, some, List, [], ◌∷◌, ◌++◌, inl, inr, keep, ltb,
  if◌then◌else◌, ◌==◌, string_comparable,
}
use aeon_agent_harness.Json.{object, Members}
use aeon_agent_harness.Registry.{
  AgentRecord, RegistryError, already_exists, not_released, write_failed, invalid_transition,
  release_gate_blocked, RegistryFaults, ReleaseGateDecision, Answer, find_agent, update_agent,
  get_agent, read_back, manifest_name_version, lifecycle_draft, lifecycle_candidate,
  lifecycle_released, valid_transition,
}

abbrev pub draft_row : String → String → String → String → Members → ℕ → AgentRecord
draft_row tenant name version owner manifest now = record {
  tenant_id = tenant;
  name = name;
  version = version;
  owner = owner;
  lifecycle = lifecycle_draft;
  manifest = object manifest;
  created_at = now;
  updated_at = now;
  quarantined = false;
  quarantine_reason = none;
}

-- The INSERT, which the primary key refuses for a version that is there.
insert_agent :
    RegistryFaults
    → ℕ
    → String
    → String
    → String
    → String
    → Members
    → List AgentRecord
    → List AgentRecord × Answer
insert_agent faults now tenant name version owner manifest rows =
    elim (find_agent tenant name version rows) [
      | some _ ↦ (rows, inl already_exists)
      | none ↦
          let rows' = rows ++ draft_row tenant name version owner manifest now ∷ [] in
          (rows', read_back faults tenant name version rows')
    ]

unfoldable pub create :
    RegistryFaults → ℕ → String → Members → String → List AgentRecord → List AgentRecord × Answer
unfolding insert_agent
create faults now tenant manifest owner rows = elim (manifest_name_version manifest) [
  | inl why ↦ (rows, inl why)
  | inr (name, version) ↦
      if faults.on_write
      then (rows, inl write_failed)
      else insert_agent faults now tenant name version owner manifest rows
]

-- What TransitionLifecycle decides from the row that it read; `none` lets the move be made.
unfoldable pub refuse_transition : String → String → ReleaseGateDecision → Option RegistryError
unfolding valid_transition
refuse_transition current target gate = elim (valid_transition current) [
  | none ↦ some (invalid_transition current)
  | some next ↦
      if not (next == target)
      then some (invalid_transition current)
      else if current == lifecycle_candidate && (target == lifecycle_released && not gate.allowed)
      then some (
          release_gate_blocked (
            if gate.reason == ""
            then "no passing release gate decision was provided"
            else gate.reason))
      else none
]

abbrev pub with_lifecycle : String → ℕ → AgentRecord → AgentRecord
with_lifecycle target now a = record a { lifecycle = target; updated_at = now }

-- What other calls do to the registry while a method runs, whose statements are not in one
-- transaction: before its UPDATE, and between the UPDATE and the read back.
pub record Gaps : Type 0 where
  pub before_write : List AgentRecord → List AgentRecord
  pub after_write : List AgentRecord → List AgentRecord

abbrev pub until_update : (List AgentRecord → List AgentRecord) → Gaps
until_update others = record { before_write = others; after_write = λ rows. rows }

abbrev pub no_gaps : Gaps
no_gaps = until_update (λ rows. rows)

-- The UPDATE at the end of a method, and its read back.
unfoldable pub write_agent :
    RegistryFaults
    → Gaps
    → (AgentRecord → AgentRecord)
    → String
    → String
    → String
    → List AgentRecord
    → List AgentRecord × Answer
write_agent faults gaps set tenant name version rows =
    if faults.on_write
    then (rows, inl write_failed)
    else let rows' = gaps.after_write (update_agent set tenant name version rows) in
      (rows', read_back faults tenant name version rows')

unfoldable pub transition_lifecycle :
    RegistryFaults
    → Gaps
    → ℕ
    → String
    → String
    → String
    → String
    → ReleaseGateDecision
    → List AgentRecord
    → List AgentRecord × Answer
transition_lifecycle faults gaps now tenant name version target gate rows =
    elim (get_agent faults.on_read tenant name version rows) [
      | inl why ↦ (rows, inl why)
      | inr current ↦ elim (refuse_transition current.lifecycle target gate) [
        | some why ↦ (gaps.before_write rows, inl why)
        | none ↦
            write_agent faults gaps (with_lifecycle target now) tenant name version
              (gaps.before_write rows)
      ]
    ]

abbrev pub with_quarantine : String → ℕ → AgentRecord → AgentRecord
with_quarantine reason now a = record a {
  quarantined = true;
  quarantine_reason = some reason;
  updated_at = now;
}

unfoldable pub quarantine :
    RegistryFaults
    → Gaps
    → ℕ
    → String
    → String
    → String
    → String
    → List AgentRecord
    → List AgentRecord × Answer
quarantine faults gaps now tenant name version reason rows =
    elim (get_agent faults.on_read tenant name version rows) [
      | inl why ↦ (rows, inl why)
      | inr current ↦
          if not (current.lifecycle == lifecycle_released)
          then (gaps.before_write rows, inl not_released)
          else write_agent faults gaps (with_quarantine reason now) tenant name version
              (gaps.before_write rows)
    ]

abbrev pub without_quarantine : ℕ → AgentRecord → AgentRecord
without_quarantine now a = record a {
  quarantined = false;
  quarantine_reason = none;
  updated_at = now;
}

unfoldable pub unquarantine :
    RegistryFaults
    → Gaps
    → ℕ
    → String
    → String
    → String
    → List AgentRecord
    → List AgentRecord × Answer
unquarantine faults gaps now tenant name version rows =
    elim (get_agent faults.on_read tenant name version rows) [
      | inl why ↦ (rows, inl why)
      | inr current ↦
          write_agent faults gaps (without_quarantine now) tenant name version
            (gaps.before_write rows)
    ]

-- ORDER BY created_at DESC
abbrev insert_newest : AgentRecord → List AgentRecord → List AgentRecord
insert_newest a [] = a ∷ []
insert_newest a (x ∷ xs) =
    if ltb x.created_at a.created_at then a ∷ x ∷ xs else x ∷ insert_newest a xs

abbrev newest_first : List AgentRecord → List AgentRecord
newest_first [] = []
newest_first (a ∷ rows) = insert_newest a (newest_first rows)

-- List, where the query succeeds.
unfoldable pub list_agents : String → List AgentRecord → List AgentRecord
list_agents tenant rows = newest_first (keep (λ a. a.tenant_id == tenant) rows)
