-- ===== src/Checkpoint/State.antt =====
-- go/internal/checkpoint/checkpoint.go: the state that is reconstructed from a run's records.
use aeon_agent_harness.Prelude.{
  ℕ, ◌+◌, ◌^◌, ◌%◌, String, Bool, true, false, ◌&&◌, not, Option, none, some, List, [], ◌∷◌, leb,
  length, count_if, if◌then◌else◌, ◌==◌, string_comparable, pair_comparable, nat_comparable,
}
use aeon_agent_harness.Prelude.Dict.{lookup, row, insert_at}
use aeon_agent_harness.Checkpoint.{Record, phase_attempted, phase_completed}

-- An int64 as its bit pattern: the sign bit flipped orders patterns as the integers they stand for.
abbrev sign_flipped : ℕ → ℕ
sign_flipped n = (n + 2 ^ 63) % 2 ^ 64

-- a >= b
abbrev pub ge64 : ℕ → ℕ → Bool
ge64 a b = leb (sign_flipped b) (sign_flipped a)

-- a + 1
abbrev pub inc64 : ℕ → ℕ
inc64 n = (n + 1) % 2 ^ 64

-- sort.Slice by Seq. Records of one run never share a position, so its order is the only one.
abbrev pub insert_by_seq : Record → List Record → List Record
insert_by_seq r [] = r ∷ []
insert_by_seq r (x ∷ xs) = if ge64 x.seq r.seq then r ∷ x ∷ xs else x ∷ insert_by_seq r xs

abbrev pub sort_by_seq : List Record → List Record
sort_by_seq [] = []
sort_by_seq (r ∷ rs) = insert_by_seq r (sort_by_seq rs)

-- map[Phase]Record, and map[stepKey] of those. A step's key is its sub-run with its id.
abbrev pub Phases : Type 0
Phases = List (String × Record)

abbrev pub StepKey : Type 0
StepKey = String × String

abbrev pub step_key : Record → StepKey
step_key r = (r.sub_run_id, r.step_id)

pub record RunState : Type 0 where
  pub run_id : String
  pub sub_run_id : String
  pub records : List Record
  pub by_step : List (StepKey × Phases)
  pub next_seq : ℕ

-- One round of NewRunState's loop.
unfoldable pub index_record : Record → List (StepKey × Phases) → List (StepKey × Phases)
unfolding insert_at
index_record r m = insert_at (step_key r) r.phase r m

abbrev pub bump_seq : Record → ℕ → ℕ
bump_seq r n = if ge64 r.seq n then inc64 r.seq else n

unfoldable pub index_records :
    List Record → List (StepKey × Phases) → ℕ → List (StepKey × Phases) × ℕ
unfolding index_record
index_records [] m n = (m, n)
index_records (r ∷ rs) m n = index_records rs (index_record r m) (bump_seq r n)

unfoldable pub new_run_state : String → List Record → RunState
unfolding index_records
new_run_state run_id records =
    let sorted = sort_by_seq records in
    let (by_step, next_seq) = index_records sorted [] 0 in
    record {
      run_id = run_id;
      sub_run_id = "";
      records = sorted;
      by_step = by_step;
      next_seq = next_seq;
    }

unfoldable pub new_sub_run_state : String → String → List Record → ℕ → RunState
unfolding new_run_state
new_sub_run_state run_id sub_run_id records run_wide_next_seq =
    let s = new_run_state run_id records in
    record s { sub_run_id = sub_run_id; next_seq = run_wide_next_seq }

unfoldable pub completed : RunState → String → String → Option Record
completed s sub_run_id step_id = lookup phase_completed (row (sub_run_id, step_id) s.by_step)

abbrev pub is_some {ℓ} : {A : Type ℓ} → Option A → Bool
is_some none = false
is_some (some _) = true

unfoldable pub attempted : RunState → String → String → Bool
attempted s sub_run_id step_id =
    let phases = row (sub_run_id, step_id) s.by_step in
    is_some (lookup phase_attempted phases) && not (is_some (lookup phase_completed phases))

pub data DurabilityLevel : Type 0 where
  per_step per_activity mixed unknown : DurabilityLevel

pub record Durability : Type 0 where
  pub level : DurabilityLevel
  pub steps : ℕ
  pub steps_with_intent : ℕ

abbrev pub has_intent : StepKey × Phases → Bool
has_intent (_, phases) = is_some (lookup phase_attempted phases)

unfoldable pub durability : RunState → Durability
durability s =
    let steps = length s.by_step in
    let intent = count_if has_intent s.by_step in
    let level =
      if steps == 0
      then unknown
      else if intent == steps
      then per_step
      else if intent == 0
      then per_activity
      else mixed in
    record { level = level; steps = steps; steps_with_intent = intent }
