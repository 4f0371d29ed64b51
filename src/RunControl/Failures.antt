-- ===== src/RunControl/Failures.antt =====
-- go/internal/runcontroller/controller.go: why a run failed, and its status.
use aeon_agent_harness.Prelude.{
  ℕ, zero, suc, String, Bool, true, false, not, Option, none, some, if◌then◌else◌, ◌==◌,
  string_comparable,
}
use aeon_agent_harness.RunControl.{
  ExecutionStatus, execution_running, execution_completed, execution_failed, execution_timed_out,
  execution_terminated, execution_canceled, execution_unnamed, FailureProto, no_failure, failure,
  CloseEvent, closed_failed, closed_timed_out, closed_otherwise, closed_terminated,
}

pub record Failure : Type 0 where
  pub kind : String
  pub message : String
  pub type : String
  pub activity : String
  pub retryable : Option Bool
  pub terminated_by : String

abbrev pub failure_of_kind : String → Failure
failure_of_kind kind = record {
  kind = kind;
  message = "";
  type = "";
  activity = "";
  retryable = none;
  terminated_by = "";
}

abbrev or_text : String → String → String
or_text new old = if new == "" then old else new

abbrev with_application : Option (String × Bool) → Failure → Failure
with_application none out = out
with_application (some (type, non_retryable)) out = record out {
  type = or_text type out.type;
  retryable = some (not non_retryable);
}

-- One level: the outermost activity is kept, and the innermost type, retryability and message.
abbrev pub collect : String → Option (String × Bool) → String → Failure → Failure
collect activity application message out =
    let out' = with_application application out in
    record out' { activity = or_text out.activity activity; message = or_text message out.message }

-- At most as many levels as `depth` are read.
unfoldable pub walk_causes : ℕ → FailureProto → Failure → Failure
walk_causes zero f out = out
walk_causes (suc depth) no_failure out = out
walk_causes (suc depth) (failure activity application message cause) out =
    walk_causes depth cause (collect activity application message out)

unfoldable pub failure_from_proto : FailureProto → Option Failure
unfolding walk_causes
failure_from_proto no_failure = none
failure_from_proto (failure activity application message cause) =
    some (walk_causes 10 (failure activity application message cause) (failure_of_kind "failed"))

abbrev pub failure_of_event : CloseEvent → Option Failure
failure_of_event (closed_failed f) = failure_from_proto f
failure_of_event closed_timed_out = some (record (failure_of_kind "timed_out") {
  message = "the run exceeded its workflow execution timeout";
})
failure_of_event (closed_terminated reason identity) =
    some (record (failure_of_kind "terminated") { message = reason; terminated_by = identity })
failure_of_event closed_otherwise = none

-- failureOf, of the close event; `none` where there is none or it cannot be read.
unfoldable pub failure_of : Option CloseEvent → Option Failure
failure_of none = none
failure_of (some event) = failure_of_event event

unfoldable pub map_status : ExecutionStatus → Bool → Bool → String
map_status execution_running paused has_pending_approval =
    if has_pending_approval then "PAUSED_FOR_APPROVAL" else if paused then "PAUSED" else "RUNNING"
map_status execution_completed paused has_pending_approval = "SUCCEEDED"
map_status execution_failed paused has_pending_approval = "FAILED"
map_status execution_timed_out paused has_pending_approval = "FAILED"
map_status execution_terminated paused has_pending_approval = "FAILED"
map_status execution_canceled paused has_pending_approval = "CANCELLED"
map_status execution_unnamed paused has_pending_approval = "PENDING"

abbrev pub has_failed : ExecutionStatus → Bool
has_failed execution_failed = true
has_failed execution_timed_out = true
has_failed execution_terminated = true
has_failed _ = false
