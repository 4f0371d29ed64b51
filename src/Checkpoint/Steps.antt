-- ===== src/Checkpoint/Steps.antt =====
-- What Completed and Attempted answer, in terms of the records that the state was built from.
use mathlib.Core.Path.{subst}
use aeon_agent_harness.Prelude.{
  ℕ, String, Bool, true, false, ◌&&◌, ◌||◌, not, Option, none, some, List, [], ◌∷◌, ◌≡◌, refl, ◌∙◌,
  if◌then◌else◌, ◌==◌, string_comparable, pair_comparable, arith, All, Bool-cases, ◌⊎◌, inl, inr,
  ap, sym, In, All-In, All-map, any,
}
use aeon_agent_harness.Prelude.Dict.{lookup, row, lookup-insert_at}
use aeon_agent_harness.Checkpoint.{Record, phase_attempted, phase_completed}
use aeon_agent_harness.Checkpoint.State.{
  StepKey, Phases, ge64, sort_by_seq, index_record, index_records, new_run_state, completed,
  attempted, is_some, bump_seq, step_key,
}
use aeon_agent_harness.Checkpoint.Order.{
  Ascends, sort_by_seq-Ascends, In-sort_by_seq, All-sort_by_seq_intro, any-sort_by_seq,
}

-- The record is the step's, in the given phase.
abbrev pub is_of : StepKey → String → Record → Bool
is_of key phase r = step_key r == key && r.phase == phase

-- The last of the step's records in the given phase.
abbrev pub last_of : StepKey → String → List Record → Option Record → Option Record
last_of key phase [] found = found
last_of key phase (r ∷ rs) found =
    last_of key phase rs (if is_of key phase r then some r else found)

lookup-index_records :
    (key : StepKey) (phase : String) (rs : List Record) (m : List (StepKey × Phases)) (n : ℕ)
    → lookup phase (row key (index_records rs m n).0)
      ≡ last_of key phase rs (lookup phase (row key m))
unfolding index_records
lookup-index_records key phase [] m n = refl
lookup-index_records key phase (r ∷ rs) m n =
    lookup-index_records key phase rs (index_record r m) (bump_seq r n)
    ∙ ap (last_of key phase rs)
        (unfold index_record in lookup-insert_at (step_key r) key r.phase phase r m)

pub lookup-new_run_state :
    (run_id : String) (key : StepKey) (phase : String) (rs : List Record)
    → lookup phase (row key (new_run_state run_id rs).by_step)
      ≡ last_of key phase (sort_by_seq rs) none
unfolding new_run_state lookup row
lookup-new_run_state run_id key phase rs = lookup-index_records key phase (sort_by_seq rs) [] 0

pub is_some-last_of :
    (key : StepKey) (phase : String) (rs : List Record) (found : Option Record)
    → is_some (last_of key phase rs found) ≡ (any (is_of key phase) rs || is_some found)
is_some-last_of key phase [] found = refl
is_some-last_of key phase (r ∷ rs) found =
    is_some-last_of key phase rs (if is_of key phase r then some r else found) ∙ ground arith

-- A step was attempted exactly when some record holds its intent and none its result, wherever in
-- the journal they stand.
pub attempted-new_run_state :
    (run_id sub step : String) (rs : List Record)
    → attempted (new_run_state run_id rs) sub step ≡ (
        any (is_of (sub, step) phase_attempted) rs
        && not (any (is_of (sub, step) phase_completed) rs))
unfolding attempted
attempted-new_run_state run_id sub step rs =
    rw
      (
        lookup-new_run_state run_id (sub, step) phase_attempted rs,
        lookup-new_run_state run_id (sub, step) phase_completed rs,
        is_some-last_of (sub, step) phase_attempted (sort_by_seq rs) none,
        is_some-last_of (sub, step) phase_completed (sort_by_seq rs) none,
        any-sort_by_seq (is_of (sub, step) phase_attempted) rs,
        any-sort_by_seq (is_of (sub, step) phase_completed) rs,
      )
      (ground arith)

module _ (key : StepKey) (phase : String) where
  -- What stands behind an answer: the record, its place and its position among its like.
  abbrev pub IsLatest : Record → List Record → Type 0
  IsLatest r rs =
      In r rs
      × (is_of key phase r ≡ true)
      × All (λ x. is_of key phase x ≡ true → ge64 r.seq x.seq ≡ true) rs

  last_of_cases :
      (rs : List Record) (found : Option Record)
      → Ascends rs
      → (All (λ x. is_of key phase x ≡ false) rs × (last_of key phase rs found ≡ found))
        ⊎ ((r : Record) × (last_of key phase rs found ≡ some r) × IsLatest r rs)
  last_of_cases [] found h = inl (tt, refl)
  last_of_cases (x ∷ xs) found (least, h) =
      elim (last_of_cases xs (if is_of key phase x then some x else found) h) [
        | inr (r, e, (member, it_is, top)) ↦ inr (
          r,
          e,
          (
            inr member,
            it_is,
            ((λ _. All-In (λ y. ge64 y.seq x.seq ≡ true) xs r least member), top),
          ),
        )
        | inl (nots, e) ↦ elim (Bool-cases (is_of key phase x)) [
          | inl hit ↦ inr (
            x,
            e ∙ rw hit,
            (
              inl refl,
              hit,
              (
                (λ _. ground arith),
                All-map (λ y. is_of key phase y ≡ false) (λ y miss it_is. cc) xs nots,
              ),
            ),
          )
          | inr miss ↦ inl ((miss, nots), e ∙ rw miss)
        ]
      ]

  pub last_of-IsLatest :
      (rs : List Record) (r : Record)
      → last_of key phase (sort_by_seq rs) none ≡ some r
      → IsLatest r rs
  last_of-IsLatest rs r e = elim (last_of_cases (sort_by_seq rs) none (sort_by_seq-Ascends rs)) [
    | inl (_, missing) ↦ cc
    | inr (r', found, (member, it_is, top)) ↦
        let same : r' ≡ r = cc in
        subst (λ x. IsLatest x rs) same
          (
            In-sort_by_seq r' rs member,
            it_is,
            All-sort_by_seq_intro (λ x. is_of key phase x ≡ true → ge64 r'.seq x.seq ≡ true) rs top,
          )
  ]

-- Completed answers with a record of the journal that is the step's result, and with the one that
-- stands last: no result of that step has a greater position.
pub completed-IsLatest :
    (run_id sub step : String) (rs : List Record) (r : Record)
    → completed (new_run_state run_id rs) sub step ≡ some r
    → IsLatest (sub, step) phase_completed r rs
unfolding completed
completed-IsLatest run_id sub step rs r e =
    last_of-IsLatest (sub, step) phase_completed rs r
      (sym (lookup-new_run_state run_id (sub, step) phase_completed rs) ∙ e)

-- Completed answers exactly when the journal holds a result of the step.
pub is_some-completed :
    (run_id sub step : String) (rs : List Record)
    → is_some (completed (new_run_state run_id rs) sub step)
      ≡ any (is_of (sub, step) phase_completed) rs
unfolding completed
is_some-completed run_id sub step rs =
    rw
      (
        lookup-new_run_state run_id (sub, step) phase_completed rs,
        is_some-last_of (sub, step) phase_completed (sort_by_seq rs) none,
        any-sort_by_seq (is_of (sub, step) phase_completed) rs,
      )
      (ground arith)
