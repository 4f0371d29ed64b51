-- ===== src/Journal/Repeat.antt =====
-- go/internal/store/checkpointer.go: an Append that is called again, after other calls or after it
-- failed.
use aeon_agent_harness.Prelude.{
  ℕ, ◌^◌, ◌<◌, ◌≡◌, refl, String, true, Option, none, some, List, [], ◌∷◌, ◌++◌, string_comparable,
  arith, ◌⊎◌, inl, inr, not, ◌∙◌, sym, ap, length, length-append,
}
use aeon_agent_harness.Json.{Json}
use aeon_agent_harness.Checkpoint.{Entry, validate, AppendResult}
use aeon_agent_harness.Journal.{
  Jsonb, Row, Stage, AppendError, payload_arg, not_distinct, find_row, next_position, new_row,
  append, appended,
}
use aeon_agent_harness.Journal.Append.{
  append_ok, append_err, append_found, find_row_written, not_distinct_refl,
}
use aeon_agent_harness.Journal.Isolation.{append_adds}

-- A call of Append, of any tenant and with any fault.
pub record AppendCall : Type 0 where
  pub fault : Option Stage
  pub now : ℕ
  pub tenant : String
  pub entry : Entry

module _ (db : Jsonb) where
  abbrev pub run_append : AppendCall → List Row → List Row
  run_append c rows = (append db c.fault c.now c.tenant c.entry rows).0

  abbrev pub run_appends : List AppendCall → List Row → List Row
  run_appends [] rows = rows
  run_appends (c ∷ calls) rows = run_appends calls (run_append c rows)

  module _ (tenant : String) (e : Entry) where
    find_row-snoc :
        (rows : List Row) (new row : Row)
        → find_row tenant e rows ≡ some row
        → find_row tenant e (rows ++ new ∷ []) ≡ some row
    unfolding find_row
    find_row-snoc [] new row h = absurd (ground (arith, h))
    find_row-snoc (x ∷ rows) new row h = ground (arith, h, find_row-snoc rows new row)

    -- No call takes away what the journal holds of an entry.
    find_row-run_appends :
        (calls : List AppendCall) (rows : List Row) (row : Row)
        → find_row tenant e rows ≡ some row
        → find_row tenant e (run_appends calls rows) ≡ some row
    find_row-run_appends [] rows row there = there
    find_row-run_appends (c ∷ calls) rows row there =
        find_row-run_appends calls (run_append c rows) row
          (elim (append_adds db c.tenant c.entry rows c.fault c.now) [
            | inl same ↦ rw same there
            | inr (v, after) ↦ rw after (find_row-snoc rows _ row there)
          ])

    -- The row that an append answers with, whether it was there or is new.
    append-row :
        (rows : List Row) (fault : Option Stage) (now : ℕ) (res : AppendResult)
        → (append db fault now tenant e rows).1 ≡ inr res
        → (validate e ≡ none)
          × (v : Option Json) × (payload_arg db e.payload ≡ some v)
          × (row : Row) × (find_row tenant e (append db fault now tenant e rows).0 ≡ some row)
          × (record {
            seq = row.seq;
            duplicate = true;
            payload_diverged = not (not_distinct db row.payload v);
          }
              ≡ record res { duplicate = true })
    append-row rows fault now res h =
        let (fine, v, cast, how) = append_ok db tenant e rows fault now res h in
        elim how [
          | inl (row, there, same, answer) ↦ (fine, v, cast, row, rw same there, rw answer refl)
          | inr (missing, small, after, answer) ↦
              let n = next_position tenant e.run_id rows in
              (
                fine,
                v,
                cast,
                new_row tenant e n v now,
                rw after (find_row_written tenant e rows n v now missing),
                rw (answer, not_distinct_refl db v) refl,
              )
        ]

    -- An append that succeeded can be repeated at any later time: whatever calls of any tenant come
    -- in between, with whatever faults, the second call writes nothing, and its answer is the first
    -- one's with the duplicate mark. This is where no statement of the second call fails.
    pub append_again :
        (rows : List Row) (fault : Option Stage) (now later : ℕ) (calls : List AppendCall)
        (res : AppendResult)
        → (append db fault now tenant e rows).1 ≡ inr res
        → append db none later tenant e (run_appends calls (append db fault now tenant e rows).0)
          ≡ (
            run_appends calls (append db fault now tenant e rows).0,
            inr (record res { duplicate = true }),
          )
    append_again rows fault now later calls res h =
        let (fine, v, cast, row, there, answer) = append-row rows fault now res h in
        let kept = find_row-run_appends calls (append db fault now tenant e rows).0 row there in
        append_found db tenant e later (run_appends calls (append db fault now tenant e rows).0) v
          row fine cast kept
        ∙ ap (λ r. (run_appends calls (append db fault now tenant e rows).0, inr r)) answer

    append_new :
        (now : ℕ) (rows : List Row) (v : Option Json)
        → validate e ≡ none
        → payload_arg db e.payload ≡ some v
        → find_row tenant e rows ≡ none
        → next_position tenant e.run_id rows < 2 ^ 63
        → append db none now tenant e rows ≡ (
          rows ++ new_row tenant e (next_position tenant e.run_id rows) v now ∷ [],
          inr (appended (next_position tenant e.run_id rows)),
        )
    unfolding append
    append_new now rows v fine cast missing small = ground (arith, fine, cast, missing, small)

    -- The same step, at the same position, in a journal of the same size.
    abbrev pub IsSameAppend :
        List Row × (AppendError ⊎ AppendResult) → List Row × (AppendError ⊎ AppendResult) → Type 0
    IsSameAppend a b =
        (r : AppendResult) × (s : AppendResult) × (a.1 ≡ inr r)
        × (b.1 ≡ inr s)
        × (r.seq ≡ s.seq)
        × (length a.0 ≡ length b.0)

    -- An append that returned an error can be called again, also where the error hides that the entry
    -- was written: where no other call comes in between and no statement fails the second time, its
    -- answer has the position, and the journal the size, that a call would have given that had not
    -- been tried before.
    pub append_retried :
        (rows : List Row) (fault : Option Stage) (now later : ℕ) (why : AppendError)
        (res : AppendResult)
        → (append db fault now tenant e rows).1 ≡ inl why
        → (append db none later tenant e rows).1 ≡ inr res
        → IsSameAppend
            (append db none later tenant e (append db fault now tenant e rows).0)
            (append db none later tenant e rows)
    append_retried rows fault now later why res failed fine_now =
        elim (append_err db tenant e rows fault now why failed) [
          | inl same ↦ (
            res,
            res,
            ap (λ x. (append db none later tenant e x).1) same ∙ fine_now,
            fine_now,
            refl,
            ap (λ x. length (append db none later tenant e x).0) same,
          )
          | inr (fine, v, cast, (missing, small, after, _)) ↦
              let n = next_position tenant e.run_id rows in
              let row = new_row tenant e n v now in
              let found =
                ap (append db none later tenant e) after
                ∙ append_found db tenant e later (rows ++ row ∷ []) v row fine cast
                    (find_row_written tenant e rows n v now missing) in
              let fresh = append_new later rows v fine cast missing small in
              (
                record (appended n) {
                  duplicate = true;
                  payload_diverged = not (not_distinct db v v);
                },
                appended n,
                ap (λ x. x.1) found,
                ap (λ x. x.1) fresh,
                refl,
                ap (λ x. length x.0) found
                    ∙ length-append rows (row ∷ [])
                    ∙ sym (length-append rows (new_row tenant e n v later ∷ []))
                    ∙ sym (ap (λ x. length x.0) fresh),
              )
        ]
