-- ===== src/Examples/Journals.antt =====
-- A journal of one run of tenant `acme`.
use aeon_agent_harness.Prelude.{
  String, true, false, none, some, Option, List, [], ◌∷◌, ◌≡◌, refl, inl, inr, ◌⊎◌, arith, In, ap,
  eq_iff,
}
use aeon_agent_harness.Json.{Json, text, valid, absent, RawMessage}
use aeon_agent_harness.Checkpoint.{Entry, Record, phase_attempted, phase_completed, validate}
use aeon_agent_harness.Checkpoint.State.{RunState, completed, new_sub_run_state}
use aeon_agent_harness.Journal.{
  Row, commit_lost, append, appended, load, next_position, new_row, scanned, payload_arg, failed,
  find_row,
}
use aeon_agent_harness.Journal.Table.{WellFormed}
use aeon_agent_harness.Journal.Append.{append-WellFormed}
use aeon_agent_harness.Journal.Repeat.{
  AppendCall, run_appends, append_again, IsSameAppend, append_retried,
}
use aeon_agent_harness.Journal.Load.{load-next_seq}
use aeon_agent_harness.Journal.Contract.{load-append}
use aeon_agent_harness.Journal.Isolation.{load-append_other}
use aeon_agent_harness.Examples.Database.{db}

abbrev pub entry : String → String → RawMessage → Entry
entry step phase payload = record {
  run_id = "run-1";
  sub_run_id = "";
  step_id = step;
  phase = phase;
  payload = payload;
}

abbrev pub intent : Entry
intent = entry "s1" phase_attempted absent

abbrev pub answer : Entry
answer = entry "s1" phase_completed (valid (text "done"))

abbrev pub one_row : List Row
one_row = new_row "acme" intent 0 none 7 ∷ []

abbrev pub two_rows : List Row
two_rows = new_row "acme" intent 0 none 7 ∷ new_row "acme" answer 1 (some (text "done")) 8 ∷ []

intent_taken : append db none 7 "acme" intent [] ≡ (one_row, inr (appended 0))
unfolding append next_position validate find_row
intent_taken = refl

answer_taken : append db none 8 "acme" answer one_row ≡ (two_rows, inr (appended 1))
unfolding append next_position validate find_row
answer_taken = refl

one_row-WellFormed : WellFormed one_row
one_row-WellFormed = ground arith

load-append_example :
    (s : RunState) × (load false "acme" "run-1" "" (append db none 8 "acme" answer one_row).0
      ≡ inr s)
    × (r : Record) × (completed s "" "s1" ≡ some r)
    × (v : Option Json) × (payload_arg db answer.payload ≡ some v)
    × (((false ≡ false) × (r ≡ scanned "run-1" (new_row "acme" answer 1 v 8)))
        ⊎ ((false ≡ true) × (row : Row) × In row one_row × (scanned "run-1" row ≡ r)))
load-append_example =
    load-append db "acme" answer one_row none 8 (appended 1) refl (ap (λ x. x.1) answer_taken)

abbrev others : List AppendCall
others =
    record { fault = none; now = 9; tenant = "evil"; entry = answer }
    ∷ record {
      fault = some commit_lost;
      now = 9;
      tenant = "acme";
      entry = entry "s2" phase_attempted absent;
    }
    ∷ []

append_again_example :
    append db none 9 "acme" answer
      (run_appends db others (append db none 8 "acme" answer one_row).0)
    ≡ (
      run_appends db others (append db none 8 "acme" answer one_row).0,
      inr (record { seq = 1; duplicate = true; payload_diverged = false }),
    )
append_again_example =
    append_again db "acme" answer one_row none 8 9 others (appended 1) (ap (λ x. x.1) answer_taken)

answer_lost : (append db (some commit_lost) 8 "acme" answer one_row).1 ≡ inl (failed commit_lost)
unfolding append validate find_row next_position
answer_lost = refl

append_retried_example :
    IsSameAppend db "acme" answer
      (append db none 8 "acme" answer (append db (some commit_lost) 8 "acme" answer one_row).0)
      (append db none 8 "acme" answer one_row)
append_retried_example =
    append_retried db "acme" answer one_row (some commit_lost) 8 8 (failed commit_lost) (appended 1)
      answer_lost (ap (λ x. x.1) answer_taken)

append-WellFormed_example : WellFormed (append db none 8 "acme" answer one_row).0
append-WellFormed_example = append-WellFormed db "acme" answer one_row none 8 one_row-WellFormed

abbrev two_rows_state : RunState
two_rows_state =
    new_sub_run_state "run-1" ""
      (scanned "run-1" (new_row "acme" intent 0 none 7)
        ∷ scanned "run-1" (new_row "acme" answer 1 (some (text "done")) 8)
        ∷ [])
      2

two_rows-load : load false "acme" "run-1" "" two_rows ≡ inr two_rows_state
unfolding load new_sub_run_state
two_rows-load = refl

load-next_seq_example : two_rows_state.next_seq ≡ next_position "acme" "run-1" two_rows
load-next_seq_example =
    load-next_seq "acme" "run-1" "" two_rows two_rows_state two_rows-load
      (unfold next_position in ground arith)

load-append_other_example :
    load false "globex" "run-1" "" (append db none 8 "acme" answer one_row).0
    ≡ load false "globex" "run-1" "" one_row
load-append_other_example =
    load-append_other db "acme" answer one_row none 8 false "globex" "run-1" ""
      (inl (λ e. ground (arith, eq_iff "acme" "globex", e)))
