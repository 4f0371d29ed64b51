-- ===== src/Registry.antt =====
-- go/internal/store/agent_registry.go: the registry of agent versions. A statement that Postgres runs
-- is what it does to the table `agents`.
pub mod Methods
pub mod Rows
pub mod Lifecycle
pub mod History
use aeon_agent_harness.Prelude.{
  ℕ, String, Bool, true, false, ◌&&◌, ◌||◌, not, Option, none, some, List, [], ◌∷◌, ◌++◌, ◌⊎◌, inl,
  inr, keep, if◌then◌else◌, ◌==◌, string_comparable,
}
use aeon_agent_harness.Json.{Json, object, Members, member_of, string_member}

-- A string in the table; these are the values that the code writes.
abbrev pub lifecycle_draft : String
lifecycle_draft = "Draft"

abbrev pub lifecycle_candidate : String
lifecycle_candidate = "Candidate"

abbrev pub lifecycle_released : String
lifecycle_released = "Released"

abbrev pub lifecycle_retired : String
lifecycle_retired = "Retired"

-- validTransitions
unfoldable pub valid_transition : String → Option String
valid_transition from =
    if from == lifecycle_draft
    then some lifecycle_candidate
    else if from == lifecycle_candidate
    then some lifecycle_released
    else if from == lifecycle_released
    then some lifecycle_retired
    else none

pub record ReleaseGateDecision : Type 0 where
  pub allowed : Bool
  pub reason : String

-- A row, which is also the AgentRecord of its tenant.
pub record AgentRecord : Type 0 where
  pub tenant_id : String
  pub name : String
  pub version : String
  pub owner : String
  pub lifecycle : String
  pub manifest : Json
  pub created_at : ℕ
  pub updated_at : ℕ
  pub quarantined : Bool
  pub quarantine_reason : Option String

pub data RegistryError : Type 0 where
  not_found already_exists not_released read_failed write_failed read_back_failed : RegistryError
  no_metadata no_name_or_version : RegistryError
  invalid_transition : String → RegistryError
  release_gate_blocked : String → RegistryError

-- tenant_id = … AND name = … AND version = …, the primary key.
unfoldable pub is_agent : String → String → String → AgentRecord → Bool
is_agent tenant name version a = a.tenant_id == tenant && (a.name == name && a.version == version)

unfoldable pub find_agent : String → String → String → List AgentRecord → Option AgentRecord
find_agent tenant name version [] = none
find_agent tenant name version (a ∷ rows) =
    if is_agent tenant name version a then some a else find_agent tenant name version rows

unfoldable pub update_agent :
    (AgentRecord → AgentRecord) → String → String → String → List AgentRecord → List AgentRecord
update_agent set tenant name version [] = []
update_agent set tenant name version (a ∷ rows) =
    let rest = update_agent set tenant name version rows in
    if is_agent tenant name version a then set a ∷ rest else a ∷ rest

-- Which statements Postgres fails, in the order of the method.
pub record RegistryFaults : Type 0 where
  pub on_read : Bool
  pub on_write : Bool
  pub on_read_back : Bool

abbrev pub Answer : Type 0
Answer = RegistryError ⊎ AgentRecord

-- Get. A manifest that is stored is read back.
unfoldable pub get_agent : Bool → String → String → String → List AgentRecord → Answer
get_agent fails tenant name version rows =
    if fails
    then inl read_failed
    else elim (find_agent tenant name version rows) [ none ↦ inl not_found | some a ↦ inr a ]

-- The Get that ends a method, where a failure hides that the write was made.
unfoldable pub read_back : RegistryFaults → String → String → String → List AgentRecord → Answer
unfolding get_agent
read_back faults tenant name version rows =
    elim (get_agent faults.on_read_back tenant name version rows) [
      | inl read_failed ↦ inl read_back_failed
      | inl why ↦ inl why
      | inr a ↦ inr a
    ]

abbrev named : String → String → RegistryError ⊎ (String × String)
named name version =
    if name == "" || version == "" then inl no_name_or_version else inr (name, version)

-- manifestNameVersion, of a manifest's members.
unfoldable pub manifest_name_version : Members → RegistryError ⊎ (String × String)
manifest_name_version manifest = elim (member_of "metadata" manifest none) [
  | some (object metadata) ↦
      named (string_member "name" metadata) (string_member "version" metadata)
  | none ↦ inl no_metadata
  | some _ ↦ inl no_metadata
]
