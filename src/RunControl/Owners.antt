-- ===== src/RunControl/Owners.antt =====
-- go/internal/api/run_controller_handlers.go: who reaches a run by its id.
use mathlib.Core.Path.{subst}
use aeon_agent_harness.Prelude.{
  sym, ap, ◌∙◌, String, Bool, true, false, Option, none, some, List, ◌⊎◌, inl, inr, ◌≡◌, ◌≢◌, refl,
  arith, eq_iff, ◌==◌, string_comparable, Sum-cases, Option-cases, Bool-cases,
}
use aeon_agent_harness.Json.{Members}
use aeon_agent_harness.Auth.{Caller}
use aeon_agent_harness.Finops.{Dollars}
use aeon_agent_harness.Finops.Ledger.{CostRow}
use aeon_agent_harness.Journal.{Jsonb}
use aeon_agent_harness.RunControl.{Temporal}
use aeon_agent_harness.RunControl.Controller.{
  workflow_id, tenant_of_run, pending_approval, send_approval_decision, decision_message,
  signal_name,
}
use aeon_agent_harness.RunControl.Handlers.{
  ControlResponse, Plane, owned_run, cancel_run, pause_run, resume_run, run_status,
}
use aeon_agent_harness.RunControl.Stream.{Polled, Streamed, stream}
use aeon_agent_harness.RunControl.Approvals.{
  Journalling, approver, decide_approval, send_and_respond, respond_to_approval,
}

-- The routes that name a run: `on_decision` has the decision and the body's hash, and `on_stream`
-- whether the writer is a Flusher.
pub data Route : Type 0 where
  on_status on_cancel on_pause on_resume : Route
  on_decision : Bool → Option String → Route
  on_stream : Bool → Route

pub data RouteAnswer : Type 0 where
  answered_by : ControlResponse → RouteAnswer
  streaming : Streamed → RouteAnswer

abbrev pub answering : {A : Type 0} → A × ControlResponse → A × RouteAnswer
answering (a, r) = (a, answered_by r)

module _ (tp : Temporal) (db : Jsonb) (d : Journalling) where
  module _ (fl : Dollars) (no_cost : fl.Float) (print : fl.Float → String) where
    unfoldable pub by_id :
        Route
        → Bool
        → Option (List (CostRow fl))
        → List (Polled tp fl no_cost print)
        → Option Caller
        → String
        → Plane tp
        → Plane tp × RouteAnswer
    by_id on_status fails costs polls caller run_id p =
        (p, answered_by (run_status tp fl no_cost print fails costs caller run_id p))
    by_id on_cancel fails costs polls caller run_id p = answering (cancel_run tp caller run_id p)
    by_id on_pause fails costs polls caller run_id p = answering (pause_run tp caller run_id p)
    by_id on_resume fails costs polls caller run_id p = answering (resume_run tp caller run_id p)
    by_id (on_decision approved body) fails costs polls caller run_id p =
        answering (decide_approval db d tp approved caller run_id body p)
    by_id (on_stream can_flush) fails costs polls caller run_id p =
        (p, streaming (stream tp fl no_cost print can_flush caller run_id p polls))

  -- The one signal of a decision.
  abbrev pub IsSignalled : Bool → String → String → Plane tp → Plane tp → Type 0
  IsSignalled approved run_id hash p after =
      (pending : Members) × (pending_approval tp (workflow_id run_id) p.world ≡ inr (some pending))
      × (after.world
          ≡ (tp.signal_workflow (workflow_id run_id) (signal_name approved)
              (some (decision_message pending hash)) p.world).0)

  send_and_respond-IsSignalled :
      (approved : Bool) (who : Caller) (run_id hash : String) (p : Plane tp)
      → ((send_and_respond db d tp approved who run_id (workflow_id run_id) hash p).0 ≡ p)
        ⊎ IsSignalled approved run_id hash p
            (send_and_respond db d tp approved who run_id (workflow_id run_id) hash p).0
  unfolding send_and_respond send_approval_decision respond_to_approval
  send_and_respond-IsSignalled approved who run_id hash p =
      elim (Sum-cases (pending_approval tp (workflow_id run_id) p.world)) [
        | inl (why, failed) ↦ inl (ground (arith, failed))
        | inr (asked, answered) ↦ elim (Option-cases asked) [
          | inl nothing ↦ inl (ground (arith, answered, nothing))
          | inr (pending, there) ↦
              let sent =
                (tp.signal_workflow (workflow_id run_id) (signal_name approved)
                  (some (decision_message pending hash)) p.world).1 in
              inr (
                pending,
                ground (arith, answered, there),
                elim (Bool-cases sent) [
                  | inl fine ↦ ground (arith, answered, there, fine)
                  | inr failed ↦ ground (arith, answered, there, failed)
                ],
              )
        ]
      ]

  decide_approval-sent :
      (approved : Bool) (who : Caller) (run_id hash owner : String) (p : Plane tp)
      → (hash == "") ≡ false
      → who.may_approve ≡ true
      → tenant_of_run tp (workflow_id run_id) p.world ≡ inr owner
      → (owner == who.tenant) ≡ true
      → decide_approval db d tp approved (some who) run_id (some hash) p
        ≡ send_and_respond db d tp approved who run_id (workflow_id run_id) hash p
  unfolding decide_approval approver owned_run
  decide_approval-sent approved who run_id hash owner p given may theirs own =
      ground (arith, given, may, theirs, own)

  -- A decision changes something only where the caller may approve, the run is of the caller's
  -- tenant, a hash is given and a call waits; what Temporal is then sent is the one signal that
  -- names the decision, with the waiting call's approval and the hash.
  pub decide_approval-authorized :
      (approved : Bool) (caller : Option Caller) (run_id : String) (body : Option String)
      (p : Plane tp)
      → ((decide_approval db d tp approved caller run_id body p).0 ≡ p)
        ⊎ ((who : Caller) × (caller ≡ some who)
            × (who.may_approve ≡ true)
            × (tenant_of_run tp (workflow_id run_id) p.world ≡ inr who.tenant)
            × (hash : String) × (body ≡ some hash)
            × (hash ≢ "")
            × IsSignalled approved run_id hash p
                (decide_approval db d tp approved caller run_id body p).0)
  unfolding decide_approval approver owned_run
  decide_approval-authorized approved caller run_id none p = inl refl
  decide_approval-authorized approved none run_id (some hash) p = elim (Bool-cases (hash == "")) [
    | inl given ↦ inl (ground (arith, given))
    | inr given ↦ inl (ground (arith, given))
  ]
  decide_approval-authorized approved (some who) run_id (some hash) p =
      elim (Bool-cases (hash == "")) [
        | inl empty ↦ inl (ground (arith, empty))
        | inr given ↦ elim (Bool-cases who.may_approve) [
          | inr may_not ↦ inl (ground (arith, given, may_not))
          | inl may ↦ elim (Sum-cases (tenant_of_run tp (workflow_id run_id) p.world)) [
            | inl (why, missing) ↦ inl (ground (arith, given, may, missing))
            | inr (owner, theirs) ↦ elim (Bool-cases (owner == who.tenant)) [
              | inr foreign ↦ inl (ground (arith, given, may, theirs, foreign))
              | inl own ↦ elim (send_and_respond-IsSignalled approved who run_id hash p) [
                | inl same ↦ inl (
                    ap (λ x. x.0)
                      (decide_approval-sent approved who run_id hash owner p given may theirs own)
                    ∙ same)
                | inr signalled ↦ inr (
                  who,
                  refl,
                  may,
                  ground (arith, theirs, own, eq_iff owner who.tenant),
                  hash,
                  refl,
                  λ e. ground (arith, given, eq_iff hash "", e),
                  subst (λ x. IsSignalled approved run_id hash p x.0)
                      (sym (
                        decide_approval-sent approved who run_id hash owner p given may theirs own))
                      signalled,
                )
              ]
            ]
          ]
        ]
      ]
