-- ===== src/Journal.antt =====
-- go/internal/store/checkpointer.go: the journal in Postgres. A statement that Postgres runs is
-- written as what it does to the table `run_checkpoints`; the SQL is quoted above it.
pub mod Table
pub mod Append
pub mod Load
pub mod Contract
pub mod Isolation
pub mod Repeat
pub mod Envelopes
use Prim.Native.Nat.{max}
use aeon_agent_harness.Prelude.{
  ℕ, suc, ◌+◌, ◌-◌, ◌^◌, ◌<◌, ◌≡◌, String, Bool, true, false, ◌&&◌, not, Option, none, some, List,
  [], ◌⊎◌, inl, inr, ◌||◌, ◌∷◌, ◌++◌, ltb, keep, any, if◌then◌else◌, ◌==◌, string_comparable,
}
use aeon_agent_harness.Json.{Json, RawMessage, absent, malformed, valid}
use aeon_agent_harness.Checkpoint.{Entry, Invalid, validate, Record, AppendResult}
use aeon_agent_harness.Checkpoint.State.{RunState, ge64, inc64, new_sub_run_state}

-- Postgres's jsonb: the value that a text is stored as (`none` where it is refused, as a text with
-- a NUL escape is), and `IS NOT DISTINCT FROM` on two values.
pub record Jsonb : Type 0 where
  pub stored : Json → Option Json
  pub same : Json → Json → Bool
  -- A value is not distinct from itself.
  pub same_refl : (j : Json) → same j j ≡ true

pub record Row : Type 0 where
  pub tenant_id : String
  pub run_id : String
  pub sub_run_id : String
  pub step_id : String
  pub phase : String
  pub seq : ℕ
  pub payload : Option Json
  pub recorded_at : ℕ

-- Where the transaction stops, if Postgres fails. A commit that fails is rolled back, or is made and
-- only its answer is lost, which the caller cannot tell apart.
pub data Stage : Type 0 where
  begin lock read_existing insert_row commit commit_lost : Stage

pub data AppendError : Type 0 where
  invalid : Invalid → AppendError
  failed : Stage → AppendError

pub data LoadError : Type 0 where
  no_run_id query_failed : LoadError

-- Whether the given stage is the one that fails.
abbrev stops : Option Stage → Stage → Bool
stops (some begin) begin = true
stops (some lock) lock = true
stops (some read_existing) read_existing = true
stops (some insert_row) insert_row = true
stops (some commit) commit = true
stops (some commit_lost) commit_lost = true
stops _ _ = false

-- `payloadArg` and the cast `$4::jsonb`: SQL NULL for no payload; `none` where the cast fails.
abbrev pub payload_arg : Jsonb → RawMessage → Option (Option Json)
payload_arg db absent = some none
payload_arg db (malformed _) = none
payload_arg db (valid j) = elim (db.stored j) [ none ↦ none | some v ↦ some (some v) ]

-- payload IS NOT DISTINCT FROM $4::jsonb
abbrev pub not_distinct : Jsonb → Option Json → Option Json → Bool
not_distinct db none none = true
not_distinct db (some j) (some k) = db.same j k
not_distinct db _ _ = false

-- tenant_id = $5 AND run_id = $1
abbrev pub in_run : String → String → Row → Bool
in_run tenant run_id row = row.tenant_id == tenant && row.run_id == run_id

-- … AND sub_run_id = $6 AND step_id = $2 AND phase = $3
abbrev pub has_identity : String → Entry → Row → Bool
has_identity tenant e row =
    in_run tenant e.run_id row
    && (row.sub_run_id == e.sub_run_id && (row.step_id == e.step_id && row.phase == e.phase))

-- SELECT seq, payload … ; the identity is the primary key, so at most one row answers.
unfoldable pub find_row : String → Entry → List Row → Option Row
find_row tenant e [] = none
find_row tenant e (row ∷ rows) =
    if has_identity tenant e row then some row else find_row tenant e rows

-- COALESCE(MAX(seq), -1) + 1
unfoldable pub next_position : String → String → List Row → ℕ
next_position tenant run_id [] = 0
next_position tenant run_id (row ∷ rows) =
    let rest = next_position tenant run_id rows in
    if in_run tenant run_id row then max (suc row.seq) rest else rest

abbrev pub new_row : String → Entry → ℕ → Option Json → ℕ → Row
new_row tenant e seq payload now = record {
  tenant_id = tenant;
  run_id = e.run_id;
  sub_run_id = e.sub_run_id;
  step_id = e.step_id;
  phase = e.phase;
  seq = seq;
  payload = payload;
  recorded_at = now;
}

abbrev pub appended : ℕ → AppendResult
appended seq = record { seq = seq; duplicate = false; payload_diverged = false }

module _ (db : Jsonb) where
  -- The INSERT, where a BIGINT out of range is an error, and the COMMIT.
  insert_new :
      Option Stage
      → ℕ
      → String
      → Entry
      → Option Json
      → List Row
      → List Row × (AppendError ⊎ AppendResult)
  insert_new fault now tenant e payload rows =
      let seq = next_position tenant e.run_id rows in
      if stops fault insert_row || not (ltb seq (2 ^ 63))
      then (rows, inl (failed insert_row))
      else if stops fault commit
      then (rows, inl (failed commit))
      else let rows' = rows ++ new_row tenant e seq payload now ∷ [] in
        if stops fault commit_lost
        then (rows', inl (failed commit_lost))
        else (rows', inr (appended seq))

  -- The row that is there already answers, and nothing is written.
  answer_duplicate : Option Stage → Option Json → Row → AppendError ⊎ AppendResult
  answer_duplicate fault payload row =
      if stops fault commit
      then inl (failed commit)
      else if stops fault commit_lost
      then inl (failed commit_lost)
      else inr (record {
        seq = row.seq;
        duplicate = true;
        payload_diverged = not (not_distinct db row.payload payload);
      })

  -- The statements between BEGIN and COMMIT, once the payload is cast.
  append_cast :
      Option Stage
      → ℕ
      → String
      → Entry
      → Option Json
      → List Row
      → List Row × (AppendError ⊎ AppendResult)
  append_cast fault now tenant e payload rows = elim (find_row tenant e rows) [
    | some row ↦ (rows, answer_duplicate fault payload row)
    | none ↦ insert_new fault now tenant e payload rows
  ]

  append_locked :
      Option Stage → ℕ → String → Entry → List Row → List Row × (AppendError ⊎ AppendResult)
  append_locked fault now tenant e rows =
      if stops fault read_existing
      then (rows, inl (failed read_existing))
      else elim (payload_arg db e.payload) [
        | none ↦ (rows, inl (failed read_existing))
        | some payload ↦ append_cast fault now tenant e payload rows
      ]

  -- Checkpointer.Append: the table after the call, and its answer. The advisory lock makes the
  -- calls for one run follow one another.
  unfoldable pub append :
      Option Stage → ℕ → String → Entry → List Row → List Row × (AppendError ⊎ AppendResult)
  unfolding append_locked append_cast insert_new answer_duplicate
  append fault now tenant e rows = elim (validate e) [
    | some why ↦ (rows, inl (invalid why))
    | none ↦
        if stops fault begin
        then (rows, inl (failed begin))
        else if stops fault lock
        then (rows, inl (failed lock))
        else append_locked fault now tenant e rows
  ]

-- Checkpointer.KnownRun, where the query succeeds.
unfoldable pub known_run : String → String → List Row → LoadError ⊎ Bool
known_run tenant run_id rows =
    if run_id == "" then inl no_run_id else inr (any (in_run tenant run_id) rows)

-- The Go record that a row is scanned into; SQL NULL stays a nil payload.
abbrev pub scanned : String → Row → Record
scanned run_id row = record {
  entry = record {
    run_id = run_id;
    sub_run_id = row.sub_run_id;
    step_id = row.step_id;
    phase = row.phase;
    payload = elim row.payload [ none ↦ absent | some j ↦ valid j ];
  };
  seq = row.seq;
  recorded_at = row.recorded_at;
}

-- ORDER BY seq
abbrev pub insert_in_order : Row → List Row → List Row
insert_in_order r [] = r ∷ []
insert_in_order r (x ∷ xs) = if ltb x.seq r.seq then x ∷ insert_in_order r xs else r ∷ x ∷ xs

abbrev pub order_by_seq : List Row → List Row
order_by_seq [] = []
order_by_seq (r ∷ rs) = insert_in_order r (order_by_seq rs)

-- The loop over the rows: the records of one sub-run, and the next position of the whole run.
unfoldable pub scan_rows : String → String → List Row → List Record → ℕ → List Record × ℕ
scan_rows run_id sub [] records next = (records, next)
scan_rows run_id sub (row ∷ rows) records next =
    let next' = if ge64 row.seq next then inc64 row.seq else next in
    scan_rows run_id sub rows
      (if row.sub_run_id == sub then records ++ scanned run_id row ∷ [] else records) next'

-- Checkpointer.Load.
unfoldable pub load : Bool → String → String → String → List Row → LoadError ⊎ RunState
unfolding scan_rows
load query_fails tenant run_id sub rows =
    if run_id == ""
    then inl no_run_id
    else if query_fails
    then inl query_failed
    else let (records, next) =
        scan_rows run_id sub (order_by_seq (keep (in_run tenant run_id) rows)) [] 0 in
      inr (new_sub_run_state run_id sub records next)
