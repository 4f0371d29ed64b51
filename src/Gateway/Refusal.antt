-- ===== src/Gateway/Refusal.antt =====
-- What a refused step reads as when its run resumes.
use mathlib.Core.Path.{subst}
use aeon_agent_harness.Prelude.{
  ℕ, String, false, some, List, ◌≡◌, refl, arith, string_comparable, Option-cases, Sum-cases, inl,
  inr, eq_iff,
}
use aeon_agent_harness.Json.{RawMessage, absent}
use aeon_agent_harness.Checkpoint.{AppendResult}
use aeon_agent_harness.Checkpoint.State.{RunState}
use aeon_agent_harness.Checkpoint.Outcome.{
  outcome_denied_by_policy, outcome_payload, outcome_payload_decided_by, step_outcome,
}
use aeon_agent_harness.Journal.{Jsonb, Row, append, load}
use aeon_agent_harness.Journal.Envelopes.{KeepsMembers, step_outcome-append}
use aeon_agent_harness.Policy.{Disposition}
use aeon_agent_harness.Policy.Engine.{Cedar, Decision}
use aeon_agent_harness.Gateway.{
  ToolCallRequest, Deployment, Service, Denial, denied, journalled, disposition_outcome,
  denial_reason, denial_entry,
}
use aeon_agent_harness.Gateway.Handlers.{journal_denial, journal_outcome, refuse}

denied_outcome :
    (d : Disposition) (o : String) → disposition_outcome d ≡ some o → o ≡ outcome_denied_by_policy
unfolding disposition_outcome
denied_outcome d o h = ground (arith, h)

module _ (db : Jsonb) (cedar : Cedar) (d : Deployment cedar) where
  -- A denial that is journalled was appended.
  journal_denial-append :
      (tenant : String) (body : ToolCallRequest) (o reason : String) (rows : List Row) (n : ℕ)
      → (journal_denial db cedar d tenant body o reason rows).1 ≡ journalled n false
      → (p : RawMessage) × (outcome_payload o reason absent ≡ some p)
        × (res : AppendResult) × ((append db d.journal_fault d.now tenant
              (denial_entry body p)
              rows).1
            ≡ inr res)
        × (res.duplicate ≡ false)
        × ((journal_denial db cedar d tenant body o reason rows).0
            ≡ (append db d.journal_fault d.now tenant (denial_entry body p) rows).0)
  unfolding journal_denial
  journal_denial-append tenant body o reason rows n h =
      elim (Option-cases (outcome_payload o reason absent)) [
        | inl bad ↦ absurd (ground (arith, bad, h))
        | inr (p, made) ↦
            elim (Sum-cases (append db d.journal_fault d.now tenant (denial_entry body p) rows).1) [
              | inl (why, failed) ↦ absurd (ground (arith, made, failed, h))
              | inr (res, took) ↦
                  (p, made, res, took, ground (arith, made, took, h), ground (arith, made, took, h))
            ]
      ]

  refuse-journalled :
      (tenant : String) (body : ToolCallRequest) (decision : Decision) (s : Service) (x : Denial)
      (n : ℕ)
      → (refuse db cedar d tenant body decision s).1 ≡ denied x
      → x.journal ≡ journalled n false
      → (o : String) × (disposition_outcome decision.disposition ≡ some o)
        × ((journal_denial db cedar d tenant body o (denial_reason decision) s.journal).1
            ≡ journalled n false)
        × ((refuse db cedar d tenant body decision s).0.journal
            ≡ (journal_denial db cedar d tenant body o (denial_reason decision) s.journal).0)
  unfolding refuse journal_outcome
  refuse-journalled tenant body decision s x n h is =
      elim (Option-cases (disposition_outcome decision.disposition)) [
        | inl waits ↦ absurd (ground (arith, waits, h, is))
        | inr (o, named) ↦ (o, named, ground (arith, named, h, is), ground (arith, named, h, is))
      ]

  -- A refusal that the gateway reports as newly journalled is what the run reads when it resumes: a
  -- load of the run's root answers, and the step has concluded as denied by policy, with the reason
  -- of the decision. This is for a Postgres that keeps the keys and the strings of an object, in
  -- whatever order.
  pub refuse-step_outcome :
      (tenant : String) (body : ToolCallRequest) (decision : Decision) (s : Service) (x : Denial)
      (n : ℕ)
      → KeepsMembers db
      → (refuse db cedar d tenant body decision s).1 ≡ denied x
      → x.journal ≡ journalled n false
      → (st : RunState) × (load false tenant body.run_id ""
            (refuse db cedar d tenant body decision s).0.journal
          ≡ inr st)
        × (step_outcome st "" body.step_id
            ≡ some (outcome_denied_by_policy, denial_reason decision))
  unfolding outcome_payload
  refuse-step_outcome tenant body decision s x n keeps h is =
      let reason = denial_reason decision in
      let (o, named, wrote, after) = refuse-journalled tenant body decision s x n h is in
      let o_is = denied_outcome decision.disposition o named in
      let (p, made, res, took, new, rows) =
        journal_denial-append tenant body o reason s.journal n wrote in
      let made' : outcome_payload_decided_by outcome_denied_by_policy reason "" absent ≡ some p =
        subst (λ y. outcome_payload y reason absent ≡ some p) o_is made in
      let (st, loaded, says, _) =
        step_outcome-append db outcome_denied_by_policy reason "" absent keeps tenant
          (denial_entry body p) s.journal d.journal_fault d.now res refl made'
          (λ e. ground (arith, eq_iff outcome_denied_by_policy "", e)) took new in
      (st, rw (after, rows) loaded, says)
