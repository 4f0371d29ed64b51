-- ===== src/RunControl/Decided.antt =====
-- What the journal of a run says of a person's decision.
use mathlib.Core.Path.{subst}
use aeon_agent_harness.Prelude.{
  ℕ, String, Bool, true, false, not, Option, none, some, List, inl, inr, ◌≡◌, ◌≢◌, refl, arith,
  eq_iff, ◌==◌, string_comparable, Sum-cases, Option-cases, Bool-cases, sym, ap, ◌∙◌,
}
use aeon_agent_harness.Json.{RawMessage}
use aeon_agent_harness.Auth.{Caller}
use aeon_agent_harness.Checkpoint.{AppendResult}
use aeon_agent_harness.Checkpoint.State.{RunState}
use aeon_agent_harness.Checkpoint.Outcome.{
  outcome_for_approval, approval_step, step_outcome, approval_actor,
}
use aeon_agent_harness.Journal.{Jsonb, Row, append, load}
use aeon_agent_harness.Journal.Envelopes.{KeepsMembers, step_outcome-append}
use aeon_agent_harness.RunControl.{Temporal}
use aeon_agent_harness.RunControl.Controller.{
  ApprovalDecision, send_approval_decision, pending_approval, sent_decision, decision_message,
  signal_name,
}
use aeon_agent_harness.RunControl.Handlers.{
  ApprovalAnswer, journalled, decision_sent, Plane, owned_run,
}
use aeon_agent_harness.RunControl.Approvals.{
  Journalling, approver, approval_detail, approval_reason, approval_entry, approval_payload,
  journal_approval, respond_to_approval, send_and_respond, decide_approval,
}

outcome_for_approval-≢ : (b : Bool) → outcome_for_approval b ≢ ""
outcome_for_approval-≢ true e = ground (arith, eq_iff (outcome_for_approval true) "", e)
outcome_for_approval-≢ false e = ground (arith, eq_iff (outcome_for_approval false) "", e)

module _ (db : Jsonb) (d : Journalling) where
  -- A decision that is journalled was appended.
  journal_approval-append :
      (run_id : String) (who : Caller) (x : ApprovalDecision) (rows : List Row) (step : String)
      (n : ℕ)
      → (journal_approval db d run_id who x rows).1 ≡ journalled step n false
      → (p : RawMessage) × (approval_payload d.quoted who x ≡ some p)
        × (step ≡ approval_step x.approval_id)
        × (res : AppendResult) × ((append db d.journal_fault d.now who.tenant
              (approval_entry run_id x p)
              rows).1
            ≡ inr res)
        × (res.duplicate ≡ false)
        × ((journal_approval db d run_id who x rows).0
            ≡ (append db d.journal_fault d.now who.tenant (approval_entry run_id x p) rows).0)
  unfolding journal_approval
  journal_approval-append run_id who x rows step n h =
      elim (Option-cases (approval_payload d.quoted who x)) [
        | inl bad ↦ absurd (ground (arith, bad, h))
        | inr (p, made) ↦
            elim (Sum-cases
              (append db d.journal_fault d.now who.tenant (approval_entry run_id x p) rows).1) [
                | inl (why, failed) ↦ absurd (ground (arith, made, failed, h))
                | inr (res, took) ↦ (
                  p,
                  made,
                  ground (arith, made, took, h),
                  res,
                  took,
                  ground (arith, made, took, h),
                  ground (arith, made, took, h),
                )
              ]
      ]

  -- The journalled decision is read back.
  journal_approval-step_outcome :
      (run_id : String) (who : Caller) (x : ApprovalDecision) (rows : List Row) (step : String)
      (n : ℕ)
      → KeepsMembers db
      → (journal_approval db d run_id who x rows).1 ≡ journalled step n false
      → (st : RunState) × (load false who.tenant run_id ""
            (journal_approval db d run_id who x rows).0
          ≡ inr st)
        × (step_outcome st "" step
            ≡ some (outcome_for_approval x.approved, approval_reason d.quoted who))
        × (approval_actor st "" step ≡ (who.id, not (who.id == "")))
  journal_approval-step_outcome run_id who x rows step n keeps h =
      let (p, made, is_step, res, took, new, after) =
        journal_approval-append run_id who x rows step n h in
      let (st, loaded, says, actor) =
        step_outcome-append db (outcome_for_approval x.approved) (approval_reason d.quoted who)
          who.id (approval_detail x) keeps who.tenant (approval_entry run_id x p) rows
          d.journal_fault d.now res refl made (outcome_for_approval-≢ x.approved) took new in
      (st, rw after loaded, rw is_step says, rw is_step actor)

  module _ (tp : Temporal) where
    -- A decision that is answered was sent, by a caller.
    abbrev IsRespondedBy :
        Bool → Option Caller → String → Option String → Plane tp → Caller → Type 0
    IsRespondedBy approved caller run_id body p who =
        (caller ≡ some who)
        × (x : ApprovalDecision) × (x.approved ≡ approved)
        × (p' : Plane tp) × (decide_approval db d tp approved caller run_id body p
            ≡ respond_to_approval db d tp run_id who x p')

    send_and_respond-decision_sent :
        (approved : Bool) (who : Caller) (run_id wf hash : String) (p : Plane tp)
        (x : ApprovalAnswer)
        → (send_and_respond db d tp approved who run_id wf hash p).1 ≡ decision_sent x
        → (y : ApprovalDecision) × (y.approved ≡ approved)
          × (p' : Plane tp) × (send_and_respond db d tp approved who run_id wf hash p
              ≡ respond_to_approval db d tp run_id who y p')
    unfolding send_and_respond send_approval_decision
    send_and_respond-decision_sent approved who run_id wf hash p x h =
        elim (Sum-cases (pending_approval tp wf p.world)) [
          | inl (why, failed) ↦ absurd (ground (arith, failed, h))
          | inr (asked, answered) ↦ elim (Option-cases asked) [
            | inl nothing ↦ absurd (ground (arith, answered, nothing, h))
            | inr (pending, there) ↦
                let (w, sent) =
                  tp.signal_workflow wf (signal_name approved)
                    (some (decision_message pending hash)) p.world in
                elim (Bool-cases sent) [
                  | inr failed ↦ absurd (ground (arith, answered, there, failed, h))
                  | inl fine ↦ (
                    sent_decision pending hash approved,
                    refl,
                    record p { world = w },
                    ground (arith, answered, there, fine),
                  )
                ]
          ]
        ]

    decide_approval-decision_sent :
        (approved : Bool) (caller : Option Caller) (run_id : String) (body : Option String)
        (p : Plane tp) (x : ApprovalAnswer)
        → (decide_approval db d tp approved caller run_id body p).1 ≡ decision_sent x
        → (who : Caller) × IsRespondedBy approved caller run_id body p who
    unfolding decide_approval approver owned_run
    decide_approval-decision_sent approved caller run_id none p x h = absurd (ground (arith, h))
    decide_approval-decision_sent approved none run_id (some hash) p x h =
        absurd (ground (arith, h))
    decide_approval-decision_sent approved (some who) run_id (some hash) p x h =
        elim (Sum-cases (owned_run tp (some who) run_id p)) [
          | inl (why, foreign) ↦ absurd (ground (arith, foreign, h))
          | inr (wf, own) ↦
              let is : decide_approval db d tp approved (some who) run_id (some hash) p
                  ≡ send_and_respond db d tp approved who run_id wf hash p =
                ground (arith, own, h) in
              let (y, same, p', sent) =
                send_and_respond-decision_sent approved who run_id wf hash p x
                  (ap (λ r. r.1) (sym is) ∙ h) in
              (who, (refl, y, same, p', is ∙ sent))
        ]

    -- A decision that a route answers as newly journalled is what the run reads when it resumes: a
    -- load of the run's root answers, and the approval's step has concluded as granted for an
    -- approval and as denied for a rejection, with the reason and with the id of the caller that
    -- decided. This is for a Postgres that keeps the keys and the strings of an object, in
    -- whatever order.
    pub decide_approval-step_outcome :
        (approved : Bool) (caller : Option Caller) (run_id : String) (body : Option String)
        (p : Plane tp) (x : ApprovalAnswer) (step : String) (n : ℕ)
        → KeepsMembers db
        → (decide_approval db d tp approved caller run_id body p).1 ≡ decision_sent x
        → x.journal ≡ journalled step n false
        → (who : Caller) × (caller ≡ some who)
          × (st : RunState) × (load false who.tenant run_id ""
                (decide_approval db d tp approved caller run_id body p).0.journal
              ≡ inr st)
          × (step_outcome st "" step
              ≡ some (outcome_for_approval approved, approval_reason d.quoted who))
          × (approval_actor st "" step ≡ (who.id, not (who.id == "")))
    unfolding respond_to_approval
    decide_approval-step_outcome approved caller run_id body p x step n keeps h is =
        let (who, (caller_is, y, same, p', sent)) =
          decide_approval-decision_sent approved caller run_id body p x h in
        let wrote : (journal_approval db d run_id who y p'.journal).1 ≡ journalled step n false =
          ground (arith, ap (λ r. r.1) (sym sent) ∙ h, is) in
        let (st, loaded, says, actor) =
          journal_approval-step_outcome run_id who y p'.journal step n keeps wrote in
        (
          who,
          caller_is,
          st,
          ap (λ r. load false who.tenant run_id "" r.0.journal) sent ∙ loaded,
          subst
              (λ b.
                step_outcome st "" step
                ≡ some (outcome_for_approval b, approval_reason d.quoted who))
              same says,
          actor,
        )
