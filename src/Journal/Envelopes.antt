-- ===== src/Journal/Envelopes.antt =====
-- What an outcome that is appended reads as when its run is loaded.
use aeon_agent_harness.Prelude.{
  ℕ, String, false, not, Option, some, List, ◌≡◌, ◌≢◌, arith, ◌==◌, string_comparable, Option-cases,
  inl, inr, refl, sym, ap, ◌∙◌,
}
use aeon_agent_harness.Json.{Json, object, Members, RawMessage, valid, is_absent}
use aeon_agent_harness.Checkpoint.{Entry, AppendResult, phase_completed}
use aeon_agent_harness.Checkpoint.State.{RunState}
use aeon_agent_harness.Checkpoint.Outcome.{
  OutcomeEnvelope, outcome_payload_decided_by, read_envelope, step_outcome, approval_actor,
}
use aeon_agent_harness.Checkpoint.Outcome.RoundTrip.{
  step_outcome-read_envelope, approval_actor-read_envelope,
}
use aeon_agent_harness.Checkpoint.Outcome.Reordered.{
  IsReordered, Says, written, read_envelope-IsReordered,
}
use aeon_agent_harness.Journal.{Jsonb, Row, Stage, append, load, payload_arg, new_row, scanned}
use aeon_agent_harness.Journal.Contract.{load-append}

-- What jsonb keeps of an object: it is stored as an object with the same keys, in some order, each
-- value is one that the key had, and a string stays the string. The order, duplicate keys and the
-- spelling of numbers may be lost.
abbrev pub KeepsMembers : Jsonb → Type 0
KeepsMembers db =
    (ms : Members) (v : Json)
    → db.stored (object ms) ≡ some v
    → (ns : Members) × (v ≡ object ns) × IsReordered ms ns

module _ (db : Jsonb) (outcome reason decided_by : String) (result : RawMessage)
    (keeps : KeepsMembers db) where
  -- The record that a new row of the entry is loaded as says what the entry's envelope says.
  read_envelope-scanned :
      (tenant run_id : String) (e : Entry) (p : RawMessage) (n now : ℕ) (v : Option Json)
      → outcome_payload_decided_by outcome reason decided_by result ≡ some p
      → payload_arg db p ≡ some v
      → (env : OutcomeEnvelope) × (read_envelope (scanned run_id (new_row tenant e n v now)).payload
          ≡ some env)
        × (is_absent (scanned run_id (new_row tenant e n v now)).payload ≡ false)
        × Says outcome reason decided_by env
  unfolding outcome_payload_decided_by
  read_envelope-scanned tenant run_id e p n now v made cast =
      let ms = written outcome reason decided_by result in
      let is : p ≡ valid (object ms) = ground (arith, made) in
      elim (Option-cases (db.stored (object ms))) [
        | inl bad ↦ absurd (ground (arith, bad, cast, is))
        | inr (w, kept) ↦
            let (ns, object_is, reordered) = keeps ms w kept in
            let (env, back, says) =
              read_envelope-IsReordered outcome reason decided_by result ns reordered in
            let v_is : v ≡ some (object ns) = ground (arith, kept, cast, is, object_is) in
            (env, rw v_is back, rw v_is refl, says)
      ]

  -- An outcome that Append took as new is what a load of its run and sub-run answers for the step.
  pub step_outcome-append :
      (tenant : String) (e : Entry) (rows : List Row) (fault : Option Stage) (now : ℕ)
      (res : AppendResult)
      → e.phase ≡ phase_completed
      → outcome_payload_decided_by outcome reason decided_by result ≡ some e.payload
      → outcome ≢ ""
      → (append db fault now tenant e rows).1 ≡ inr res
      → res.duplicate ≡ false
      → (st : RunState) × (load false tenant e.run_id e.sub_run_id
            (append db fault now tenant e rows).0
          ≡ inr st)
        × (step_outcome st e.sub_run_id e.step_id ≡ some (outcome, reason))
        × (approval_actor st e.sub_run_id e.step_id ≡ (decided_by, not (decided_by == "")))
  step_outcome-append tenant e rows fault now res done made named took new =
      let (st, loaded, r, there, v, cast, how) =
        load-append db tenant e rows fault now res done took in
      elim how [
        | inr (old, _, _, _) ↦ absurd (ground (arith, old, new))
        | inl (_, it_is) ↦
            let (env, back, bytes, says) =
              read_envelope-scanned tenant e.run_id e e.payload res.seq now v made cast in
            let (o, why, who) = says in
            let outcome_is =
              step_outcome-read_envelope st e.sub_run_id e.step_id r env there (rw it_is bytes)
                (rw it_is back) (λ empty. named (sym o ∙ empty)) in
            let actor_is =
              approval_actor-read_envelope st e.sub_run_id e.step_id r env there (rw it_is bytes)
                (rw it_is back) in
            (st, loaded, outcome_is ∙ rw (o, why) refl, actor_is ∙ ap (λ d. (d, not (d == ""))) who)
      ]
