-- ===== src/Journal/Append.antt =====
-- Append: what it writes, also where it fails, and that the table stays well formed.
use aeon_agent_harness.Prelude.{
  ℕ, ◌^◌, ◌<◌, ◌≡◌, refl, String, true, Option, none, some, List, [], ◌∷◌, ◌++◌, string_comparable,
  arith, ◌⊎◌, inl, inr, not, Option-cases, Sum-cases, ◌∙◌,
}
use aeon_agent_harness.Json.{Json}
use aeon_agent_harness.Checkpoint.{Entry, validate, AppendResult}
use aeon_agent_harness.Journal.{
  Jsonb, Row, Stage, AppendError, payload_arg, not_distinct, find_row, next_position, new_row,
  append, appended,
}
use aeon_agent_harness.Journal.Table.{
  WellFormed, WellFormed-snoc, Precedes-new_row, find_row-append, has_identity-new_row,
}

module _ (db : Jsonb) (tenant : String) (e : Entry) (rows : List Row) where
  abbrev position : ℕ
  position = next_position tenant e.run_id rows

  -- The entry was there: the table is as before, and the answer names the row.
  abbrev pub Found : Option Json → List Row → AppendResult → Type 0
  Found v after res =
      (row : Row) × (find_row tenant e rows ≡ some row)
      × (after ≡ rows)
      × (res ≡ record {
        seq = row.seq;
        duplicate = true;
        payload_diverged = not (not_distinct db row.payload v);
      })

  -- The entry was written at the run's next position.
  abbrev pub Written : ℕ → Option Json → List Row → AppendResult → Type 0
  Written now v after res =
      (find_row tenant e rows ≡ none)
      × (position < 2 ^ 63)
      × (after ≡ rows ++ new_row tenant e position v now ∷ [])
      × (res ≡ appended position)

  pub append_ok :
      (fault : Option Stage) (now : ℕ) (res : AppendResult)
      → (append db fault now tenant e rows).1 ≡ inr res
      → (validate e ≡ none)
        × (v : Option Json) × (payload_arg db e.payload ≡ some v)
        × (Found v (append db fault now tenant e rows).0 res
            ⊎ Written now v (append db fault now tenant e rows).0 res)
  unfolding append
  append_ok fault now res h = elim (Option-cases (validate e)) [
    | inr (why, bad) ↦ absurd (ground (arith, bad, h))
    | inl fine ↦ elim (Option-cases (payload_arg db e.payload)) [
      | inl uncast ↦ absurd (ground (arith, fine, uncast, h))
      | inr (v, cast) ↦ elim (Option-cases (find_row tenant e rows)) [
        | inr (row, there) ↦ (
          fine,
          v,
          cast,
          inl (row, there, ground (arith, fine, cast, there), ground (arith, fine, cast, there)),
        )
        | inl missing ↦ (
          fine,
          v,
          cast,
          inr (
            missing,
            ground (arith, fine, cast, missing),
            ground (arith, fine, cast, missing),
            ground (arith, fine, cast, missing),
          ),
        )
      ]
    ]
  ]

pub not_distinct_refl : (db : Jsonb) (v : Option Json) → not_distinct db v v ≡ true
not_distinct_refl db none = refl
not_distinct_refl db (some j) = db.same_refl j

-- The append of an entry that is there answers with its row.
pub append_found :
    (db : Jsonb) (tenant : String) (e : Entry) (now : ℕ) (rows : List Row) (v : Option Json)
    (row : Row)
    → validate e ≡ none
    → payload_arg db e.payload ≡ some v
    → find_row tenant e rows ≡ some row
    → append db none now tenant e rows ≡ (
      rows,
      inr (record {
        seq = row.seq;
        duplicate = true;
        payload_diverged = not (not_distinct db row.payload v);
      }),
    )
unfolding append
append_found db tenant e now rows v row fine cast there = ground (arith, fine, cast, there)

pub find_row_written :
    (tenant : String) (e : Entry) (rows : List Row) (n : ℕ) (v : Option Json) (now : ℕ)
    → find_row tenant e rows ≡ none
    → find_row tenant e (rows ++ new_row tenant e n v now ∷ []) ≡ some (new_row tenant e n v now)
unfolding find_row
find_row_written tenant e rows n v now missing =
    find_row-append tenant e rows (new_row tenant e n v now ∷ []) missing
    ∙ rw (has_identity-new_row tenant e n v now)

-- An append that returns an error has left the journal as it was, or has written the entry and lost
-- the answer of its commit.
pub append_err :
    (db : Jsonb) (tenant : String) (e : Entry) (rows : List Row) (fault : Option Stage) (now : ℕ)
    (why : AppendError)
    → (append db fault now tenant e rows).1 ≡ inl why
    → ((append db fault now tenant e rows).0 ≡ rows)
      ⊎ ((validate e ≡ none)
          × (v : Option Json) × (payload_arg db e.payload ≡ some v)
          × Written db tenant e rows now v
              (append db fault now tenant e rows).0
              (appended (next_position tenant e.run_id rows)))
unfolding append
append_err db tenant e rows fault now why h = elim (Option-cases (validate e)) [
  | inr (bad_entry, bad) ↦ inl (ground (arith, bad))
  | inl fine ↦ elim (Option-cases (payload_arg db e.payload)) [
    | inl uncast ↦ inl (ground (arith, fine, uncast))
    | inr (v, cast) ↦ elim (Option-cases (find_row tenant e rows)) [
      | inr (row, there) ↦ inl (ground (arith, fine, cast, there))
      | inl missing ↦ ground (arith, fine, cast, missing, h)
    ]
  ]
]

-- Whatever Postgres does, an append keeps the identities of the rows distinct and the positions of
-- each run ascending in the order of writing.
pub append-WellFormed :
    (db : Jsonb) (tenant : String) (e : Entry) (rows : List Row) (fault : Option Stage) (now : ℕ)
    → WellFormed rows
    → WellFormed (append db fault now tenant e rows).0
append-WellFormed db tenant e rows fault now h =
    elim (Sum-cases (append db fault now tenant e rows).1) [
      | inl (why, bad) ↦ elim (append_err db tenant e rows fault now why bad) [
        | inl same ↦ rw same h
        | inr (_, v, _, (missing, small, after, _)) ↦ rw after (
            WellFormed-snoc rows (new_row tenant e (next_position tenant e.run_id rows) v now) h
              small (Precedes-new_row tenant e v now rows missing))
      ]
      | inr (res, good) ↦
          let (_, v, _, how) = append_ok db tenant e rows fault now res good in
          elim how [
            | inl (_, _, same, _) ↦ rw same h
            | inr (missing, small, after, _) ↦ rw after (
                WellFormed-snoc rows (new_row tenant e (next_position tenant e.run_id rows) v now) h
                  small (Precedes-new_row tenant e v now rows missing))
          ]
    ]
