-- ===== src/Checkpoint/Durability.antt =====
-- What a durability level says of the records behind it.
use aeon_agent_harness.Prelude.{
  String, true, false, none, List, [], ◌∷◌, ◌≡◌, refl, ◌==◌, string_comparable, pair_comparable,
  nat_comparable, arith, any, any-In, In, inl, inr, length, count_if, Bool-cases, ==_refl, ◌≢◌,
  eq_iff, sym, ◌∙◌, count_if-le,
}
use aeon_agent_harness.Prelude.Dict.{lookup, row}
use aeon_agent_harness.Checkpoint.{Record, phase_attempted}
use aeon_agent_harness.Checkpoint.State.{
  StepKey, Phases, RunState, sort_by_seq, new_run_state, is_some, step_key, has_intent, durability,
  unknown, per_step, per_activity,
}
use aeon_agent_harness.Checkpoint.Order.{any-sort_by_seq}
use aeon_agent_harness.Checkpoint.Steps.{is_of, lookup-new_run_state, is_some-last_of}

no_intent :
    (m : List (StepKey × Phases)) (key : StepKey)
    → count_if has_intent m ≡ 0
    → is_some (lookup phase_attempted (row key m)) ≡ false
unfolding row lookup
no_intent [] key h = refl
no_intent ((k, ps) ∷ m) key h = ground (arith, no_intent m key)

all_intent :
    (m : List (StepKey × Phases)) (key : StepKey) (phase : String)
    → count_if has_intent m ≡ length m
    → is_some (lookup phase (row key m)) ≡ true
    → is_some (lookup phase_attempted (row key m)) ≡ true
unfolding row lookup
all_intent [] key phase h k = cc
all_intent ((j, ps) ∷ m) key phase h k =
    ground (arith, all_intent m key phase, count_if-le has_intent m)

module _ (run_id : String) (rs : List Record) where
  abbrev index : List (StepKey × Phases)
  index = (new_run_state run_id rs).by_step

  is_some-index :
      (key : StepKey) (phase : String)
      → is_some (lookup phase (row key index)) ≡ any (is_of key phase) rs
  is_some-index key phase =
      rw
        (
          lookup-new_run_state run_id key phase rs,
          is_some-last_of key phase (sort_by_seq rs) none,
          any-sort_by_seq (is_of key phase) rs,
        )
        (ground arith)

  is_of_self : (r : Record) → is_of (step_key r) r.phase r ≡ true
  is_of_self r = ground (arith, ==_refl r.sub_run_id, ==_refl r.step_id, ==_refl r.phase)

  indexed : (r : Record) → In r rs → is_some (lookup r.phase (row (step_key r) index)) ≡ true
  indexed r there =
      is_some-index (step_key r) r.phase
      ∙ any-In (is_of (step_key r) r.phase) rs r there (is_of_self r)

  attempted_phase :
      (r : Record)
      → (r.phase == phase_attempted) ≡ true
      → is_of (step_key r) phase_attempted r ≡ true
  attempted_phase r h = ground (arith, ==_refl r.sub_run_id, ==_refl r.step_id, h)

  without_intent :
      (r : Record)
      → In r rs
      → is_some (lookup phase_attempted (row (step_key r) index)) ≡ false
      → (r.phase == phase_attempted) ≡ false
  without_intent r there none_here = elim (Bool-cases (r.phase == phase_attempted)) [
    | inr other ↦ other
    | inl intent ↦ cc (
      sym (is_some-index (step_key r) phase_attempted) ∙ none_here,
      any-In (is_of (step_key r) phase_attempted) rs r there (attempted_phase r intent),
    )
  ]

  row_of_empty :
      (m : List (StepKey × Phases)) (key : StepKey) (phase : String)
      → length m ≡ 0
      → is_some (lookup phase (row key m)) ≡ false
  unfolding row lookup
  row_of_empty [] key phase h = refl
  row_of_empty (x ∷ m) key phase h = absurd (omega arith)

  empty_index : (xs : List Record) → rs ≡ xs → length index ≡ 0 → xs ≡ []
  empty_index [] e h = refl
  empty_index (r ∷ xs) e h =
      cc (indexed r (rw e (inl refl)), row_of_empty index (step_key r) r.phase h)

  level_facts :
      (s : RunState)
      → ((durability s).level ≡ unknown → length s.by_step ≡ 0)
        × ((durability s).level ≡ per_step → count_if has_intent s.by_step ≡ length s.by_step)
        × ((durability s).level ≡ per_activity → count_if has_intent s.by_step ≡ 0)
  unfolding durability
  level_facts s = (λ h. ground (arith, h), λ h. ground (arith, h), λ h. ground (arith, h))

-- A journal is called `per_step` only where the step of every one of its records also has a record
-- of its intent.
pub durability-per_step :
    (run_id : String) (rs : List Record) (r : Record)
    → (durability (new_run_state run_id rs)).level ≡ per_step
    → In r rs
    → any (is_of (step_key r) phase_attempted) rs ≡ true
durability-per_step run_id rs r h there =
    let m = index run_id rs in
    sym (is_some-index run_id rs (step_key r) phase_attempted)
    ∙ all_intent m (step_key r) r.phase ((level_facts run_id rs (new_run_state run_id rs)).1 h)
        (indexed run_id rs r there)

-- A journal is called `per_activity` only where none of its records is one of intent.
pub durability-per_activity :
    (run_id : String) (rs : List Record) (r : Record)
    → (durability (new_run_state run_id rs)).level ≡ per_activity
    → In r rs
    → r.phase ≢ phase_attempted
durability-per_activity run_id rs r h there intent =
    let none_here =
      no_intent (index run_id rs) (step_key r)
        ((level_facts run_id rs (new_run_state run_id rs)).2 h) in
    ground
      (arith, without_intent run_id rs r there none_here, eq_iff r.phase phase_attempted, intent)

-- A journal's durability is called `unknown` only where the journal is empty.
pub durability-unknown :
    (run_id : String) (rs : List Record)
    → (durability (new_run_state run_id rs)).level ≡ unknown
    → rs ≡ []
durability-unknown run_id rs h =
    empty_index run_id rs rs refl ((level_facts run_id rs (new_run_state run_id rs)).0 h)
