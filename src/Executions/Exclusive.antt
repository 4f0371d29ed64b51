-- ===== src/Executions/Exclusive.antt =====
-- The statements of all callers in any order: who may hold a key.
use aeon_agent_harness.Prelude.{
  String, Bool, true, false, ◌&&◌, Option, none, some, List, [], ◌∷◌, ◌++◌, ◌≡◌, refl, ◌⊎◌, inl,
  inr, arith, if◌then◌else◌, ◌==◌, string_comparable, Option-cases, Bool-cases, eq_iff,
}
use aeon_agent_harness.Json.{Json}
use aeon_agent_harness.Executions.{
  ExecutionState, in_flight, released, Execution, is_execution, find_execution, update_execution,
  insert_claim, new_execution, reclaim, reclaimed,
}

-- An update that leaves the row's identity alone.
abbrev pub KeepsIdentity : (Execution → Execution) → Type 0
KeepsIdentity set =
    (row : Execution)
    → ((set row).tenant_id ≡ row.tenant_id) × ((set row).idempotency_key ≡ row.idempotency_key)

module _ (tenant key : String) where
  abbrev pub is_ours : String → String → Bool
  is_ours t k = t == tenant && k == key

  pub find_execution-update_execution :
      (set : Execution → Execution) (t k : String) (rows : List Execution)
      → KeepsIdentity set
      → is_ours t k ≡ true
      → find_execution tenant key (update_execution set t k rows)
        ≡ elim (find_execution tenant key rows) [ none ↦ none | some row ↦ some (set row) ]
  unfolding find_execution update_execution
  find_execution-update_execution set t k [] same ours = refl
  find_execution-update_execution set t k (row ∷ rows) same ours = ground (
    arith,
    find_execution-update_execution set t k rows same ours,
    same row,
    ours,
    eq_iff t tenant,
    eq_iff k key,
  )

  pub find_execution-update_other :
      (set : Execution → Execution) (t k : String) (rows : List Execution)
      → KeepsIdentity set
      → is_ours t k ≡ false
      → find_execution tenant key (update_execution set t k rows) ≡ find_execution tenant key rows
  unfolding find_execution update_execution
  find_execution-update_other set t k [] same other = refl
  find_execution-update_other set t k (row ∷ rows) same other = ground (
    arith,
    find_execution-update_other set t k rows same other,
    same row,
    other,
    eq_iff row.tenant_id t,
    eq_iff row.idempotency_key k,
    eq_iff row.tenant_id tenant,
    eq_iff row.idempotency_key key,
    eq_iff t tenant,
    eq_iff k key,
  )

  pub find_execution-append :
      (rows : List Execution) (new : Execution)
      → find_execution tenant key (rows ++ new ∷ []) ≡ elim (find_execution tenant key rows) [
        | some row ↦ some row
        | none ↦ if is_execution tenant key new then some new else none
      ]
  unfolding find_execution
  find_execution-append [] new = ground arith
  find_execution-append (row ∷ rows) new = ground (arith, find_execution-append rows new)

  -- The state that the key is in; `none` where it has no row.
  abbrev pub state_at : List Execution → Option ExecutionState
  state_at rows = elim (find_execution tenant key rows) [ none ↦ none | some row ↦ some row.state ]

  pub state_at-insert_claim :
      (t k tool agent : String) (args : Json) (rows : List Execution)
      → ((state_at (insert_claim t k tool agent args rows).0 ≡ state_at rows)
          × ((is_ours t k && (insert_claim t k tool agent args rows).1) ≡ false))
        ⊎ ((state_at rows ≡ none)
            × (state_at (insert_claim t k tool agent args rows).0 ≡ some in_flight)
            × ((is_ours t k && (insert_claim t k tool agent args rows).1) ≡ true))
  unfolding insert_claim
  state_at-insert_claim t k tool agent args rows = elim (Option-cases (find_execution t k rows)) [
    | inr (row, there) ↦ inl (ground (arith, there))
    | inl missing ↦ ground (
      arith,
      missing,
      find_execution-append rows (new_execution t k tool agent args),
      eq_iff t tenant,
      eq_iff k key,
    )
  ]

  pub state_at-reclaim :
      (t k : String) (rows : List Execution)
      → ((state_at (reclaim t k rows).0 ≡ state_at rows)
          × ((is_ours t k && (reclaim t k rows).1) ≡ false))
        ⊎ ((state_at rows ≡ some released)
            × (state_at (reclaim t k rows).0 ≡ some in_flight)
            × ((is_ours t k && (reclaim t k rows).1) ≡ true))
  unfolding reclaim
  state_at-reclaim t k rows = elim (Option-cases (find_execution t k rows)) [
    | inl missing ↦ inl (ground (arith, missing))
    | inr (row, there) ↦ elim (Bool-cases (is_ours t k)) [
      | inl ours ↦ ground (
        arith,
        there,
        ours,
        eq_iff t tenant,
        eq_iff k key,
        find_execution-update_execution reclaimed t k rows (λ r. (refl, refl)) ours,
      )
      | inr other ↦ ground (
        arith,
        there,
        other,
        find_execution-update_other reclaimed t k rows (λ r. (refl, refl)) other,
      )
    ]
  ]
