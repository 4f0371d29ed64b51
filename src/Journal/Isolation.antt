-- ===== src/Journal/Isolation.antt =====
-- What an append to one run leaves alone.
use aeon_agent_harness.Prelude.{
  ℕ, ◌≡◌, String, Bool, false, Option, List, [], ◌∷◌, ◌++◌, inl, inr, ◌⊎◌, arith, keep, ◌∙◌,
  keep-append, eq_iff, append-nil, Sum-cases, ◌≢◌, string_comparable,
}
use aeon_agent_harness.Json.{Json}
use aeon_agent_harness.Checkpoint.{Entry}
use aeon_agent_harness.Journal.{Jsonb, Row, Stage, in_run, next_position, new_row, append, load}
use aeon_agent_harness.Journal.Append.{append_ok, append_err}

-- The rows that a call appends: none or one, and that one is the entry's.
pub append_adds :
    (db : Jsonb) (tenant : String) (e : Entry) (rows : List Row) (fault : Option Stage) (now : ℕ)
    → ((append db fault now tenant e rows).0 ≡ rows)
      ⊎ ((v : Option Json) × ((append db fault now tenant e rows).0
            ≡ rows ++ new_row tenant e (next_position tenant e.run_id rows) v now ∷ []))
append_adds db tenant e rows fault now = elim (Sum-cases (append db fault now tenant e rows).1) [
  | inl (why, bad) ↦ elim (append_err db tenant e rows fault now why bad) [
    | inl same ↦ inl same
    | inr (_, v, _, (_, _, after, _)) ↦ inr (v, after)
  ]
  | inr (res, good) ↦
      let (_, v, _, how) = append_ok db tenant e rows fault now res good in
      elim how [ inl (_, _, same, _) ↦ inl same | inr (_, _, after, _) ↦ inr (v, after) ]
]

-- An append to one tenant's run changes nothing that another tenant, or another run, can load.
pub load-append_other :
    (db : Jsonb) (tenant : String) (e : Entry) (rows : List Row) (fault : Option Stage) (now : ℕ)
    (query_fails : Bool) (reader run_id sub : String)
    → ((tenant ≢ reader) ⊎ (e.run_id ≢ run_id))
    → load query_fails reader run_id sub (append db fault now tenant e rows).0
      ≡ load query_fails reader run_id sub rows
unfolding load
load-append_other db tenant e rows fault now query_fails reader run_id sub other =
    elim (append_adds db tenant e rows fault now) [
      | inl same ↦ rw same
      | inr (v, after) ↦
          let row = new_row tenant e (next_position tenant e.run_id rows) v now in
          let apart : in_run reader run_id row ≡ false =
            ground (arith, eq_iff tenant reader, eq_iff e.run_id run_id) in
          let unseen : keep (in_run reader run_id) (rows ++ row ∷ [])
              ≡ keep (in_run reader run_id) rows =
            keep-append (in_run reader run_id) rows (row ∷ []) ∙ rw apart (append-nil _) in
          rw (after, unseen)
    ]
