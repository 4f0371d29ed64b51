-- ===== src/ToolExec.antt =====
-- go/internal/toolexec/executor.go: running a tool, and recording that it ran, was refused or was
-- answered from the cache.
use aeon_agent_harness.Prelude.{
  ℕ, String, Bool, true, false, Option, none, some, List, [], ◌∷◌, ◌++◌, if◌then◌else◌,
  string_comparable,
}
use aeon_agent_harness.Prelude.Dict.{lookup, insert}
use aeon_agent_harness.Json.{Json}
use aeon_agent_harness.Policy.{Disposition, other}

abbrev pub door_http : String
door_http = "http"

abbrev pub door_http_dedupe : String
door_http_dedupe = "http-dedupe"

abbrev pub outcome_ok : String
outcome_ok = "ok"

abbrev pub outcome_error : String
outcome_error = "error"

abbrev pub outcome_denied : String
outcome_denied = "denied"

abbrev pub outcome_replayed : String
outcome_replayed = "replayed"

-- What a tool returns: its result as json.Marshal writes it, `none` where it cannot, and an error.
pub record ToolAnswer : Type 0 where
  pub result : Option Json
  pub error : Option String

-- Tools are not under this file; each is a function of the tenant and the arguments.
abbrev pub ExecuteFunc : Type 0
ExecuteFunc = String → Json → ToolAnswer

pub record Invocation : Type 0 where
  pub tenant : String
  pub tool_name : String
  pub args : Json
  pub run_id : String
  pub step_id : String
  pub agent_manifest_ref : String
  pub door : String

pub record InvocationRecord : Type 0 where
  pub tenant : String
  pub tool_name : String
  pub door : String
  pub outcome : String
  pub error_message : String
  pub run_id : String
  pub step_id : String
  pub agent_manifest_ref : String
  pub duration_ms : Option ℕ
  pub disposition : Disposition
  pub policy_id : String

pub record Executor : Type 0 where
  pub fns : List (String × ExecuteFunc)
  pub has_recorder : Bool

-- A recorded row, or an error of the recorder; neither where there is no recorder.
pub record Outcome : Type 0 where
  pub result : Option Json
  pub recorded : Bool
  pub record_err : Bool

pub data ToolError : Type 0 where
  unknown_tool failed : String → ToolError

-- What the calls have done outside: the tools that ran, and the rows of the recorder.
pub record World : Type 0 where
  pub ran : List Invocation
  pub audit : List InvocationRecord

unfoldable pub knows : Executor → String → Bool
knows e tool = elim (lookup tool e.fns) [ none ↦ false | some _ ↦ true ]

unfoldable pub register : String → ExecuteFunc → Executor → Executor
register tool fn e = record e { fns = insert tool fn e.fns }

abbrev no_outcome : Option Json → Outcome
no_outcome result = record { result = result; recorded = false; record_err = false }

-- Executor.record. The flag says whether the recorder fails.
unfoldable pub record_row : Bool → Executor → InvocationRecord → World → World × Outcome
record_row fails e row w =
    if e.has_recorder
    then (if fails then (w, record { result = none; recorded = false; record_err = true }) else (
      record w { audit = w.audit ++ row ∷ [] },
      record { result = none; recorded = true; record_err = false },
    ))
    else (w, no_outcome none)

abbrev row_of : Invocation → String → String → Option ℕ → Disposition → String → InvocationRecord
row_of inv outcome message duration disposition policy_id = record {
  tenant = inv.tenant;
  tool_name = inv.tool_name;
  door = inv.door;
  outcome = outcome;
  error_message = message;
  run_id = inv.run_id;
  step_id = inv.step_id;
  agent_manifest_ref = inv.agent_manifest_ref;
  duration_ms = duration;
  disposition = disposition;
  policy_id = policy_id;
}

unfoldable pub record_refusal :
    Bool → Executor → Invocation → Disposition → String → World → World × Outcome
record_refusal fails e inv disposition policy_id w =
    record_row fails e (row_of inv outcome_denied "" none disposition policy_id) w

unfoldable pub record_replay : Bool → Executor → Invocation → String → World → World × Outcome
record_replay fails e inv policy_id w =
    record_row fails e (row_of inv outcome_replayed "" none (other "") policy_id) w

abbrev row_of_answer : Invocation → ℕ → Option String → InvocationRecord
row_of_answer inv elapsed none = row_of inv outcome_ok "" (some elapsed) (other "") ""
row_of_answer inv elapsed (some message) =
    row_of inv outcome_error message (some elapsed) (other "") ""

abbrev as_error : Option String → Option ToolError
as_error none = none
as_error (some message) = some (failed message)

abbrev after_run : Invocation → World → World
after_run inv w = record w { ran = w.ran ++ inv ∷ [] }

-- Executor.Execute, where the tool takes `elapsed` milliseconds; the error is `none` for nil.
unfoldable pub run_tool :
    Bool → ℕ → Executor → Invocation → World → World × Outcome × Option ToolError
run_tool fails elapsed e inv w = elim (lookup inv.tool_name e.fns) [
  | none ↦ (w, no_outcome none, some (unknown_tool inv.tool_name))
  | some fn ↦
      let answer = fn inv.tenant inv.args in
      let (w', written) =
        record_row fails e (row_of_answer inv elapsed answer.error) (after_run inv w) in
      (w', record written { result = answer.result }, as_error answer.error)
]
