-- ===== src/Executions/Claims.antt =====
-- What a claim finds, and what a completed execution answers to the next claim.
use aeon_agent_harness.Prelude.{
  String, true, false, Option, none, some, List, ◌≡◌, refl, arith, ◌==◌, string_comparable,
  Option-cases, Bool-cases, ==_refl, inl, inr,
}
use aeon_agent_harness.Json.{Json}
use aeon_agent_harness.Journal.{Jsonb, not_distinct}
use aeon_agent_harness.Journal.Append.{not_distinct_refl}
use aeon_agent_harness.Executions.{
  completed, Execution, find_execution, insert_claim, reclaim, reclaimed, is_released, with_result,
  complete_row, Faults, claim, complete, new_execution,
}
use aeon_agent_harness.Executions.Exclusive.{find_execution-update_execution, find_execution-append}

module _ (db : Jsonb) (tenant key : String) (args : Json) where
  -- The key's row is there, with arguments that Postgres holds for the same.
  abbrev pub HasRow : List Execution → Type 0
  HasRow rows =
      (stored : Json) × (db.stored args ≡ some stored)
      × (row : Execution) × (find_execution tenant key rows ≡ some row)
      × (not_distinct db row.args (some stored) ≡ true)

  -- A claim without an error and without diverging arguments leaves a row for its arguments.
  pub claim-HasRow :
      (faults : Faults) (tool agent : String) (rows : List Execution)
      → (claim db faults tenant key tool agent args rows).2 ≡ none
      → (claim db faults tenant key tool agent args rows).1.args_diverged ≡ false
      → HasRow (claim db faults tenant key tool agent args rows).0 × ((key == "") ≡ false)
  unfolding claim insert_claim reclaim
  claim-HasRow faults tool agent rows fine same = elim (Option-cases (db.stored args)) [
    | inl bad ↦ absurd (ground (arith, bad, fine))
    | inr (stored, cast) ↦ elim (Option-cases (find_execution tenant key rows)) [
      | inl missing ↦
          let new = new_execution tenant key tool agent stored in
          (
            (
              stored,
              cast,
              new,
              ground (
                arith,
                fine,
                cast,
                missing,
                find_execution-append tenant key rows new,
                ==_refl tenant,
                ==_refl key,
              ),
              not_distinct_refl db (some stored),
            ),
            ground (arith, fine),
          )
      | inr (row, there) ↦ elim (Bool-cases (is_released row)) [
        | inr kept ↦ (
          (
            stored,
            cast,
            row,
            ground (arith, fine, cast, there, kept),
            ground (arith, fine, same, cast, there, kept),
          ),
          ground (arith, fine),
        )
        | inl free ↦ (
          (
            stored,
            cast,
            reclaimed row,
            ground (
              arith,
              fine,
              cast,
              there,
              free,
              find_execution-update_execution tenant key reclaimed tenant key rows
                  (λ r. (refl, refl)) (ground (arith, ==_refl tenant, ==_refl key)),
            ),
            ground (arith, fine, same, cast, there, free),
          ),
          ground (arith, fine),
        )
      ]
    ]
  ]

  -- The claim of a key whose execution completed answers with the recorded result and changes
  -- nothing.
  pub claim-completed :
      (faults : Faults) (tool agent : String) (rows : List Execution) (stored v : Json)
      (row : Execution)
      → (key == "") ≡ false
      → faults.on_insert ≡ false
      → faults.on_select ≡ false
      → db.stored args ≡ some stored
      → find_execution tenant key rows ≡ some row
      → row.state ≡ completed
      → row.result ≡ some v
      → not_distinct db row.args (some stored) ≡ true
      → claim db faults tenant key tool agent args rows ≡ (
        rows,
        record {
          completed_result = some v;
          claimed = false;
          args_diverged = false;
          failed_attempts = row.failed_attempts;
        },
        none,
      )
  unfolding claim insert_claim
  claim-completed faults tool agent rows stored v row named f g cast there is_done has same =
      ground (arith, named, f, g, cast, there, is_done, has, same)

  -- Where Complete reports no error, the key's row holds the result as Postgres stored it.
  pub find_execution-complete :
      (faults : Faults) (rows : List Execution) (result : Option Json) (row : Execution)
      → (complete db faults tenant key result rows).1 ≡ false
      → find_execution tenant key rows ≡ some row
      → (j : Json) × (v : Json) × (result ≡ some j)
        × (db.stored j ≡ some v)
        × (find_execution tenant key (complete db faults tenant key result rows).0
            ≡ some (with_result v row))
  unfolding complete complete_row
  find_execution-complete faults rows none row fine there = absurd (ground (arith, fine))
  find_execution-complete faults rows (some j) row fine there = elim (Option-cases (db.stored j)) [
    | inl bad ↦ absurd (ground (arith, bad, fine))
    | inr (v, cast) ↦ (
      j,
      v,
      refl,
      cast,
      ground (
        arith,
        cast,
        fine,
        there,
        find_execution-update_execution tenant key (with_result v) tenant key rows
            (λ r. (refl, refl)) (ground (arith, ==_refl tenant, ==_refl key)),
      ),
    )
  ]
