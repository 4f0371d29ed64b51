-- ===== src/Checkpoint.antt =====
-- go/internal/checkpoint/checkpoint.go: what an entry of the journal is, and which are refused.
pub mod State
pub mod Order
pub mod Steps
pub mod Durability
pub mod Outcome
use Prim.Native.String.{len}
use aeon_agent_harness.Prelude.{
  ℕ, String, Bool, ◌&&◌, ◌||◌, not, Option, none, some, ltb, if◌then◌else◌, ◌==◌, string_comparable,
}
use aeon_agent_harness.Json.{RawMessage, is_absent, is_valid_json}

abbrev pub max_sub_run_id_len : ℕ
max_sub_run_id_len = 512

-- `Phase` is a string type in Go, and any string can arrive in it.
abbrev pub phase_attempted : String
phase_attempted = "attempted"

abbrev pub phase_completed : String
phase_completed = "completed"

abbrev pub is_valid_phase : String → Bool
is_valid_phase p = p == phase_attempted || p == phase_completed

pub record Entry : Type 0 where
  pub run_id : String
  pub sub_run_id : String
  pub step_id : String
  pub phase : String
  pub payload : RawMessage

pub data Invalid : Type 0 where
  no_run_id no_step_id bad_payload : Invalid
  bad_phase : String → Invalid
  long_sub_run_id : ℕ → Invalid

-- `none` is Go's nil error.
unfoldable pub validate : Entry → Option Invalid
validate e =
    if e.run_id == ""
    then some no_run_id
    else if e.step_id == ""
    then some no_step_id
    else if not (is_valid_phase e.phase)
    then some (bad_phase e.phase)
    else if not (is_absent e.payload) && not (is_valid_json e.payload)
    then some bad_payload
    else if ltb max_sub_run_id_len (len e.sub_run_id)
    then some (long_sub_run_id (len e.sub_run_id))
    else none

-- A stored entry. `recorded_at` is the database's clock.
pub record Record : Type 0 where
  pub entry : Entry
  pub open entry use *
  pub seq : ℕ
  pub recorded_at : ℕ

pub record AppendResult : Type 0 where
  pub seq : ℕ
  pub duplicate : Bool
  pub payload_diverged : Bool
