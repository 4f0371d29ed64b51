-- ===== src/RunControl.antt =====
-- go/internal/runcontroller/controller.go: runs as Temporal workflows. The Temporal client is the
-- parameter `Temporal`, of which no law is used.
pub mod Failures
pub mod Controller
pub mod Reports
pub mod Handlers
pub mod Approvals
pub mod Owners
pub mod Decided
pub mod Quarantined
pub mod Stream
pub mod Closes
use aeon_agent_harness.Prelude.{ℕ, String, Bool, Option, ◌⊎◌}
use aeon_agent_harness.Json.{Members}

-- A WorkflowExecutionStatus; the last stands for the values that the code does not name.
pub data ExecutionStatus : Type 0 where
  execution_running execution_completed execution_failed execution_timed_out : ExecutionStatus
  execution_terminated execution_canceled execution_unnamed : ExecutionStatus

-- The memo's field aeon_tenant: no memo or no such field, one that is no string, or its text.
pub data TenantMemo : Type 0 where
  no_tenant_memo unreadable_memo : TenantMemo
  tenant_memo : String → TenantMemo

pub record Description : Type 0 where
  pub status : ExecutionStatus
  pub memo : TenantMemo

-- A failure and its cause: the activity's type, the application failure's type and whether it is
-- not retryable, and the message.
pub data FailureProto : Type 0 where
  no_failure : FailureProto
  failure : String → Option (String × Bool) → String → FailureProto → FailureProto

-- A close event: of a failed, a timed out or a terminated run, or another.
pub data CloseEvent : Type 0 where
  closed_failed : FailureProto → CloseEvent
  closed_timed_out closed_otherwise : CloseEvent
  -- With the reason and the identity.
  closed_terminated : String → String → CloseEvent

pub record StartOptions : Type 0 where
  pub id : String
  pub task_queue : String
  pub tenant : String
  pub workflow_type : String
  pub input : Members

-- client.Client: a query gives `none` where it fails, a signal or a start changes the world and may
-- fail.
pub record Temporal : Type 1 where
  pub World : Type 0
  pub execute_workflow : StartOptions → World → World × Option String
  pub cancel_workflow : String → World → World × Bool
  pub signal_workflow : String → String → Option Members → World → World × Bool
  pub describe : String → World → Option Description
  -- The query pending_approval, which may answer with null.
  pub query_pending_approval : String → World → Option (Option Members)
  pub query_is_paused : String → World → Option Bool
  pub query_budgets_consumed : String → World → Option (Option Members)
  pub close_event : String → World → Option CloseEvent
