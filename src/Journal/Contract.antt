-- ===== src/Journal/Contract.antt =====
-- The seam's contract, over Append and Load together.
use mathlib.Core.Path.{subst}
use aeon_agent_harness.Prelude.{
  ℕ, ◌≡◌, refl, String, true, false, Option, none, some, List, [], ◌∷◌, ◌++◌, inl, inr, ◌⊎◌,
  string_comparable, arith, keep, map, sym, ◌∙◌, ap, In, In-keep, In-keep_intro, In-map,
  In-map_intro, any-In, Option-cases, eq_iff, In-append_right, In-append, All-In, ◌≢◌,
}
use aeon_agent_harness.Json.{Json}
use aeon_agent_harness.Checkpoint.{Entry, Record, validate, AppendResult, phase_completed}
use aeon_agent_harness.Checkpoint.State.{
  RunState, new_sub_run_state, new_run_state, completed, is_some,
}
use aeon_agent_harness.Checkpoint.Steps.{is_of, completed-IsLatest, is_some-completed}
use aeon_agent_harness.Journal.{
  Jsonb, Row, Stage, payload_arg, in_run, has_identity, find_row, next_position, new_row, append,
  scan_rows, scanned, order_by_seq, load,
}
use aeon_agent_harness.Journal.Table.{find_row-none, find_row-some, has_identity-new_row}
use aeon_agent_harness.Journal.Append.{append_ok}
use aeon_agent_harness.Journal.Load.{
  in_sub_run, scan_rows-records, In-order_by_seq, In-order_by_seq_intro,
}

-- The records that a load gives, before they are indexed.
abbrev loaded : String → String → String → List Row → List Record
loaded tenant run_id sub rows =
    map (scanned run_id) (keep (in_sub_run sub) (order_by_seq (keep (in_run tenant run_id) rows)))

-- A load is the state of the rows of the tenant, the run and the sub-run.
load_ok :
    (tenant run_id sub : String) (rows : List Row)
    → run_id ≢ ""
    → load false tenant run_id sub rows
      ≡ inr (
          new_sub_run_state run_id sub
            (loaded tenant run_id sub rows)
            (scan_rows run_id sub (order_by_seq (keep (in_run tenant run_id) rows)) [] 0).1)
unfolding load
load_ok tenant run_id sub rows named = ground (
  arith,
  eq_iff run_id "",
  scan_rows-records run_id sub (order_by_seq (keep (in_run tenant run_id) rows)) [] 0,
)

validate-run_id : (e : Entry) → validate e ≡ none → e.run_id ≢ ""
unfolding validate
validate-run_id e h = ground (arith, eq_iff e.run_id "")

module _ (tenant : String) (e : Entry) (done : e.phase ≡ phase_completed) where
  -- The state that a load of the entry's sub-run gives.
  state_of : List Row → RunState
  state_of rows =
      new_sub_run_state e.run_id e.sub_run_id (loaded tenant e.run_id e.sub_run_id rows)
        (scan_rows e.run_id e.sub_run_id (order_by_seq (keep (in_run tenant e.run_id) rows)) [] 0).1

  completed-state_of :
      (rows : List Row)
      → completed (state_of rows) e.sub_run_id e.step_id
        ≡ completed
            (new_run_state e.run_id (loaded tenant e.run_id e.sub_run_id rows))
            e.sub_run_id
            e.step_id
  unfolding state_of new_sub_run_state completed
  completed-state_of rows = refl

  -- A row of the entry makes its step completed.
  row_completes :
      (rows : List Row) (row : Row)
      → In row rows
      → has_identity tenant e row ≡ true
      → is_some (completed (state_of rows) e.sub_run_id e.step_id) ≡ true
  row_completes rows row there same =
      let mine : in_run tenant e.run_id row ≡ true = ground (arith, same) in
      let sub : in_sub_run e.sub_run_id row ≡ true = ground (arith, same) in
      let it_is : is_of (e.sub_run_id, e.step_id) phase_completed (scanned e.run_id row) ≡ true =
        ground (arith, same, done) in
      let kept = In-keep_intro (in_run tenant e.run_id) row rows there mine in
      let ordered = In-order_by_seq_intro row (keep (in_run tenant e.run_id) rows) kept in
      let selected = In-keep_intro (in_sub_run e.sub_run_id) row _ ordered sub in
      rw
        (
          completed-state_of rows,
          is_some-completed e.run_id e.sub_run_id e.step_id
              (loaded tenant e.run_id e.sub_run_id rows),
        )
        (any-In (is_of (e.sub_run_id, e.step_id) phase_completed) _ (scanned e.run_id row)
          (In-map_intro (scanned e.run_id) row _ selected) it_is)

  scanned-has_identity :
      (row : Row) (r : Record)
      → in_run tenant e.run_id row ≡ true
      → is_of (e.sub_run_id, e.step_id) phase_completed r ≡ true
      → scanned e.run_id row ≡ r
      → has_identity tenant e row ≡ true
  scanned-has_identity row r mine it_is same =
      let scanned_is : is_of (e.sub_run_id, e.step_id) phase_completed (scanned e.run_id row)
          ≡ true =
        subst (λ x. is_of (e.sub_run_id, e.step_id) phase_completed x ≡ true) (sym same) it_is in
      ground (arith, mine, scanned_is, done)

  -- The record that answers was scanned from a row of the entry.
  completed_row :
      (rows : List Row) (r : Record)
      → completed (state_of rows) e.sub_run_id e.step_id ≡ some r
      → (row : Row) × In row rows × (has_identity tenant e row ≡ true) × (scanned e.run_id row ≡ r)
  completed_row rows r h =
      let (there, it_is, _) =
        completed-IsLatest e.run_id e.sub_run_id e.step_id
          (loaded tenant e.run_id e.sub_run_id rows) r (sym (completed-state_of rows) ∙ h) in
      let (row, selected, same) = In-map (scanned e.run_id) r _ there in
      let (ordered, sub) = In-keep (in_sub_run e.sub_run_id) row _ selected in
      let (kept, mine) =
        In-keep (in_run tenant e.run_id) row rows (In-order_by_seq row _ ordered) in
      (row, kept, scanned-has_identity row r mine it_is same, same)

  -- The step of an entry that the journal holds is completed, by a row of the entry.
  completed_by :
      (rows : List Row) (row : Row)
      → In row rows
      → has_identity tenant e row ≡ true
      → (r : Record) × (completed (state_of rows) e.sub_run_id e.step_id ≡ some r)
        × (found : Row) × In found rows
        × (has_identity tenant e found ≡ true)
        × (scanned e.run_id found ≡ r)
  completed_by rows row there same =
      let done_now = row_completes rows row there same in
      elim (Option-cases (completed (state_of rows) e.sub_run_id e.step_id)) [
        | inl missing ↦ absurd (ground (arith, missing, done_now))
        | inr (r, found) ↦
            let (by, inside, it_is, scan) = completed_row rows r found in
            (r, found, by, inside, it_is, scan)
      ]

-- The one row of an entry that is added to rows without it.
only_new :
    (tenant : String) (e : Entry) (rows : List Row) (new found : Row)
    → find_row tenant e rows ≡ none
    → In found (rows ++ new ∷ [])
    → has_identity tenant e found ≡ true
    → new ≡ found
only_new tenant e rows new found missing there same = elim (In-append found rows (new ∷ []) there) [
  | inl old ↦ absurd (
      ground (
        arith,
        All-In (λ x. has_identity tenant e x ≡ false) rows found
            (find_row-none tenant e rows missing) old,
        same,
      ))
  | inr added ↦ ground (arith, added)
]

-- A result that Append took is what a later Load answers: the step is completed in the state of its
-- run and sub-run. Where the call was the first for the step, the record is the entry with the
-- payload as Postgres stored it, at the position that the call returned; where it was a duplicate,
-- the record is of a row that stood in the journal before the call.
pub load-append :
    (db : Jsonb) (tenant : String) (e : Entry) (rows : List Row) (fault : Option Stage) (now : ℕ)
    (res : AppendResult)
    → e.phase ≡ phase_completed
    → (append db fault now tenant e rows).1 ≡ inr res
    → (s : RunState) × (load false tenant e.run_id e.sub_run_id
          (append db fault now tenant e rows).0
        ≡ inr s)
      × (r : Record) × (completed s e.sub_run_id e.step_id ≡ some r)
      × (v : Option Json) × (payload_arg db e.payload ≡ some v)
      × (((res.duplicate ≡ false) × (r ≡ scanned e.run_id (new_row tenant e res.seq v now)))
          ⊎ ((res.duplicate ≡ true) × (row : Row) × In row rows × (scanned e.run_id row ≡ r)))
unfolding state_of
load-append db tenant e rows fault now res done h =
    let after = (append db fault now tenant e rows).0 in
    let (fine, v, cast, how) = append_ok db tenant e rows fault now res h in
    let found = load_ok tenant e.run_id e.sub_run_id after (validate-run_id e fine) in
    elim how [
      | inl (row, there, same, answer) ↦
          let (old, it_is) = find_row-some tenant e rows row there in
          let (r, completed_now, row', there', _, scan) =
            completed_by tenant e done after row (subst (λ t. In row t) (sym same) old) it_is in
          (
            state_of tenant e done after,
            found,
            r,
            completed_now,
            v,
            cast,
            inr (ap (λ x. x.duplicate) answer, row', subst (λ t. In row' t) same there', scan),
          )
      | inr (missing, _, added, answer) ↦
          let n = next_position tenant e.run_id rows in
          let new = new_row tenant e n v now in
          let (r, completed_now, row', there', same, scan) =
            completed_by tenant e done after new
              (subst (λ t. In new t) (sym added) (In-append_right new rows (new ∷ []) (inl refl)))
              (has_identity-new_row tenant e n v now) in
          let it_is_new =
            only_new tenant e rows new row' missing (subst (λ t. In row' t) added there') same in
          (
            state_of tenant e done after,
            found,
            r,
            completed_now,
            v,
            cast,
            inl (
              ap (λ x. x.duplicate) answer,
              rw answer (sym scan ∙ ap (scanned e.run_id) (sym it_is_new)),
            ),
          )
    ]
