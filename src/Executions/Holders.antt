-- ===== src/Executions/Holders.antt =====
-- The statements of all callers in any order, as a step relation: who may hold a key.
use aeon_agent_harness.Prelude.{
  ℕ, suc, String, Bool, false, ◌&&◌, some, List, ◌≡◌, refl, ◌⊎◌, inl, arith, if◌then◌else◌,
}
use aeon_agent_harness.Json.{Json}
use aeon_agent_harness.Executions.{
  in_flight, Execution, insert_claim, reclaim, with_result, given_back, complete_row, release_row,
}
use aeon_agent_harness.Executions.Exclusive.{
  is_ours, state_at, state_at-insert_claim, state_at-reclaim, find_execution-update_other,
}

-- The table, and how many callers hold one key: they were told to execute, and have not finished.
pub record Situation : Type 0 where
  pub rows : List Execution
  pub holders : ℕ

abbrev gain : Bool → ℕ → ℕ
gain won n = if won then suc n else n

module _ (tenant key : String) where
  -- One statement of some caller, for any tenant and key. Only who holds the key completes or
  -- releases it; a holder can also go without a trace, as in a crash.
  pub data Step : Situation → Situation → Type 0 where
    inserts :
        (s : Situation) (t k tool agent : String) (args : Json)
        → Step s (record {
          rows = (insert_claim t k tool agent args s.rows).0;
          holders =
              gain
                (is_ours tenant key t k && (insert_claim t k tool agent args s.rows).1)
                s.holders;
        })
    reclaims :
        (s : Situation) (t k : String)
        → Step s (record {
          rows = (reclaim t k s.rows).0;
          holders = gain (is_ours tenant key t k && (reclaim t k s.rows).1) s.holders;
        })
    completes :
        (rows : List Execution) (n : ℕ) (v : Json)
        → Step
            (record { rows = rows; holders = suc n })
            (record { rows = complete_row tenant key v rows; holders = n })
    releases :
        (rows : List Execution) (n : ℕ)
        → Step
            (record { rows = rows; holders = suc n })
            (record { rows = release_row tenant key rows; holders = n })
    completes_other :
        (s : Situation) (t k : String) (v : Json)
        → is_ours tenant key t k ≡ false
        → Step s (record s { rows = complete_row t k v s.rows })
    releases_other :
        (s : Situation) (t k : String)
        → is_ours tenant key t k ≡ false
        → Step s (record s { rows = release_row t k s.rows })
    goes :
        (rows : List Execution) (n : ℕ)
        → Step (record { rows = rows; holders = suc n }) (record { rows = rows; holders = n })

  -- Any number of statements.
  pub data Steps : Situation → Situation → Type 0 where
    stay : (s : Situation) → Steps s s
    then_step : {s t u : Situation} → Steps s t → Step t u → Steps s u

  -- Nobody holds the key, or one caller does and the key is in flight.
  abbrev pub Exclusive : Situation → Type 0
  Exclusive s = (s.holders ≡ 0) ⊎ ((s.holders ≡ 1) × (state_at tenant key s.rows ≡ some in_flight))

  Step-Exclusive : {s u : Situation} → Step s u → Exclusive s → Exclusive u
  unfolding complete_row release_row
  Step-Exclusive (inserts s t k tool agent args) h =
      ground (arith, state_at-insert_claim tenant key t k tool agent args s.rows, h)
  Step-Exclusive (reclaims s t k) h = ground (arith, state_at-reclaim tenant key t k s.rows, h)
  Step-Exclusive (completes rows n v) h = inl (ground (arith, h))
  Step-Exclusive (releases rows n) h = inl (ground (arith, h))
  Step-Exclusive (completes_other s t k v other) h = ground (
    arith,
    h,
    find_execution-update_other tenant key (with_result v) t k s.rows (λ r. (refl, refl)) other,
  )
  Step-Exclusive (releases_other s t k other) h = ground (
    arith,
    h,
    find_execution-update_other tenant key given_back t k s.rows (λ r. (refl, refl)) other,
  )
  Step-Exclusive (goes rows n) h = inl (ground (arith, h))

  -- However the statements of all callers interleave, from any table on and as long as nobody held
  -- the key at the start, at most one caller holds it, and then its row is in flight.
  pub Steps-Exclusive :
      (rows : List Execution) (s : Situation)
      → Steps (record { rows = rows; holders = 0 }) s
      → Exclusive s
  Steps-Exclusive rows s (stay _) = inl refl
  Steps-Exclusive rows s (then_step before step) =
      Step-Exclusive step (Steps-Exclusive rows _ before)
