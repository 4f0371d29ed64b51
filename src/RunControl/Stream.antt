-- ===== src/RunControl/Stream.antt =====
-- go/internal/api/run_controller_handlers.go: the stream of a run's status.
use aeon_agent_harness.Prelude.{
  String, Bool, true, false, not, Option, List, [], ◌∷◌, ◌⊎◌, inl, inr, map, if◌then◌else◌, ◌==◌,
  string_comparable,
}
use aeon_agent_harness.Auth.{Caller}
use aeon_agent_harness.Finops.{Dollars}
use aeon_agent_harness.Finops.Ledger.{CostRow}
use aeon_agent_harness.RunControl.{Temporal}
use aeon_agent_harness.RunControl.Controller.{ControlError}
use aeon_agent_harness.RunControl.Reports.{Status, status_of}
use aeon_agent_harness.RunControl.Handlers.{
  ControlResponse, Plane, owned_run, caller_tenant_or_empty, is_terminal,
}

pub data StreamEvent : Type 0 where
  status_event : Status → StreamEvent
  error_event : ControlError → StreamEvent

-- An answer before the stream opens, or the events and whether the handler closed the stream
-- itself; else the client went away.
pub data Streamed : Type 0 where
  refused : ControlResponse → Streamed
  no_streaming : Streamed
  streamed : List StreamEvent → Bool → Streamed

-- The loop, from the status that was sent last and what the polls give until the client is gone.
unfoldable pub stream_from : String → List (ControlError ⊎ Status) → List StreamEvent × Bool
unfolding is_terminal
stream_from last [] = ([], false)
stream_from last (inl why ∷ polls) = (error_event why ∷ [], true)
stream_from last (inr s ∷ polls) =
    let rest = stream_from s.status polls in
    let (events, closed) = if is_terminal s.status then ([], true) else rest in
    (if s.status == last then events else status_event s ∷ events, closed)

module _ (tp : Temporal) (fl : Dollars) (no_cost : fl.Float) (print : fl.Float → String) where
  -- What one poll finds: the world, whether the ledger's query fails, and the ledger.
  abbrev pub Polled : Type 0
  Polled = tp.World × Bool × Option (List (CostRow fl))

  abbrev pub poll : String → String → Polled → ControlError ⊎ Status
  poll wf tenant (w, fails, costs) = status_of tp fl no_cost print fails wf tenant costs w

  -- The handler of GET /runs/{run_id}/stream, where `can_flush` is whether the writer is a Flusher.
  unfoldable pub stream : Bool → Option Caller → String → Plane tp → List Polled → Streamed
  stream can_flush caller run_id p polls = elim (owned_run tp caller run_id p) [
    | inl refusal ↦ refused refusal
    | inr wf ↦
        if not can_flush
        then no_streaming
        else let (events, closed) =
            stream_from "" (map (poll wf (caller_tenant_or_empty caller)) polls) in
          streamed events closed
  ]
