-- ===== src/Executions.antt =====
-- go/internal/store/tool_executions.go: the table that a tool call with an idempotency key is
-- deduplicated by. Each statement is what Postgres does to the table `tool_executions`.
pub mod Exclusive
pub mod Holders
pub mod Claims
use aeon_agent_harness.Prelude.{
  ℕ, suc, String, Bool, true, false, ◌&&◌, not, Option, none, some, List, [], ◌∷◌, ◌++◌, ◌⊎◌, inl,
  inr, if◌then◌else◌, ◌==◌, string_comparable,
}
use aeon_agent_harness.Json.{Json}
use aeon_agent_harness.Journal.{Jsonb, not_distinct}

pub data ExecutionState : Type 0 where
  in_flight completed released : ExecutionState

pub record Execution : Type 0 where
  pub tenant_id : String
  pub idempotency_key : String
  pub tool_name : String
  pub agent_manifest_ref : String
  pub args : Option Json
  pub result : Option Json
  pub state : ExecutionState
  pub failed_attempts : ℕ

-- tenant_id = … AND idempotency_key = …, the primary key.
abbrev pub is_execution : String → String → Execution → Bool
is_execution tenant key row = row.tenant_id == tenant && row.idempotency_key == key

unfoldable pub find_execution : String → String → List Execution → Option Execution
find_execution tenant key [] = none
find_execution tenant key (row ∷ rows) =
    if is_execution tenant key row then some row else find_execution tenant key rows

-- UPDATE … WHERE tenant_id = … AND idempotency_key = …
unfoldable pub update_execution :
    (Execution → Execution) → String → String → List Execution → List Execution
update_execution set tenant key [] = []
update_execution set tenant key (row ∷ rows) =
    let rest = update_execution set tenant key rows in
    if is_execution tenant key row then set row ∷ rest else row ∷ rest

abbrev pub new_execution : String → String → String → String → Json → Execution
new_execution tenant key tool agent args = record {
  tenant_id = tenant;
  idempotency_key = key;
  tool_name = tool;
  agent_manifest_ref = agent;
  args = some args;
  result = none;
  state = in_flight;
  failed_attempts = 0;
}

-- INSERT … ON CONFLICT DO NOTHING RETURNING true
unfoldable pub insert_claim :
    String → String → String → String → Json → List Execution → List Execution × Bool
insert_claim tenant key tool agent args rows = elim (find_execution tenant key rows) [
  | some _ ↦ (rows, false)
  | none ↦ (rows ++ new_execution tenant key tool agent args ∷ [], true)
]

abbrev is_released : Execution → Bool
is_released row = elim row.state [ in_flight ↦ false | completed ↦ false | released ↦ true ]

abbrev pub reclaimed : Execution → Execution
reclaimed row = record row { state = in_flight }

-- UPDATE … SET state = 'in_flight' WHERE … AND state = 'released' RETURNING true
unfoldable pub reclaim : String → String → List Execution → List Execution × Bool
reclaim tenant key rows = elim (find_execution tenant key rows) [
  | none ↦ (rows, false)
  | some row ↦
      if is_released row then (update_execution reclaimed tenant key rows, true) else (rows, false)
]

abbrev pub with_result : Json → Execution → Execution
with_result v row = record row { result = some v; state = completed }

unfoldable pub complete_row : String → String → Json → List Execution → List Execution
complete_row tenant key v rows = update_execution (with_result v) tenant key rows

abbrev pub given_back : Execution → Execution
given_back row = record row {
  state = released;
  failed_attempts = suc row.failed_attempts;
  result = none;
}

unfoldable pub release_row : String → String → List Execution → List Execution
release_row tenant key rows = update_execution given_back tenant key rows

-- Where Postgres fails a statement.
pub record Faults : Type 0 where
  pub on_insert : Bool
  pub on_select : Bool
  pub on_reclaim : Bool
  pub on_complete : Bool
  pub on_release : Bool

pub record ClaimResult : Type 0 where
  pub completed_result : Option Json
  pub claimed : Bool
  pub args_diverged : Bool
  pub failed_attempts : ℕ

pub data ClaimError : Type 0 where
  no_key bad_args claiming_failed reading_failed reclaiming_failed execution_in_flight : ClaimError

-- The ClaimResult{} that comes with an error.
abbrev pub no_claim : ClaimResult
no_claim = record {
  completed_result = none;
  claimed = false;
  args_diverged = false;
  failed_attempts = 0;
}

abbrev pub won : ClaimResult
won = record no_claim { claimed = true }

-- A method returns its result and an error, `none` for nil.
abbrev pub Claimed : Type 0
Claimed = List Execution × ClaimResult × Option ClaimError

module _ (db : Jsonb) where
  -- What the SELECT says of the row.
  abbrev pub seen : Json → Execution → ClaimResult
  seen args row = record {
    completed_result = none;
    claimed = false;
    args_diverged = not (not_distinct db row.args (some args));
    failed_attempts = row.failed_attempts;
  }

  claim_released : Faults → String → String → ClaimResult → List Execution → Claimed
  claim_released faults tenant key out rows =
      if faults.on_reclaim
      then (rows, no_claim, some reclaiming_failed)
      else let (rows', again) = reclaim tenant key rows in
        if again
        then (rows', record out { claimed = true }, none)
        else (rows', out, some execution_in_flight)

  claim_existing : Faults → String → String → Json → Execution → List Execution → Claimed
  claim_existing faults tenant key args row rows =
      let out = seen args row in
      elim row.state [
        | completed ↦ (rows, record out { completed_result = row.result }, none)
        | released ↦ claim_released faults tenant key out rows
        | in_flight ↦ (rows, out, some execution_in_flight)
      ]

  -- Claim, with no other call between its statements. Its arguments are the object that json.Marshal
  -- writes; a map decoded from JSON is always written.
  unfoldable pub claim :
      Faults → String → String → String → String → Json → List Execution → Claimed
  unfolding claim_released claim_existing
  claim faults tenant key tool agent args rows =
      if key == ""
      then (rows, no_claim, some no_key)
      else if faults.on_insert
      then (rows, no_claim, some claiming_failed)
      else elim (db.stored args) [
        | none ↦ (rows, no_claim, some claiming_failed)
        | some stored ↦
            let (rows', inserted) = insert_claim tenant key tool agent stored rows in
            if inserted
            then (rows', won, none)
            else if faults.on_select
            then (rows, no_claim, some reading_failed)
            else elim (find_execution tenant key rows) [
              | none ↦ (rows, no_claim, some reading_failed)
              | some row ↦ claim_existing faults tenant key stored row rows
            ]
      ]

  -- Complete; `none` is a result that json.Marshal refuses. The flag is an error.
  unfoldable pub complete :
      Faults → String → String → Option Json → List Execution → List Execution × Bool
  complete faults tenant key none rows = (rows, true)
  complete faults tenant key (some result) rows = elim (db.stored result) [
    | none ↦ (rows, true)
    | some v ↦ if faults.on_complete then (rows, true) else (complete_row tenant key v rows, false)
  ]

-- Release. The flag is an error.
unfoldable pub release : Faults → String → String → List Execution → List Execution × Bool
release faults tenant key rows =
    if faults.on_release then (rows, true) else (release_row tenant key rows, false)
