-- ===== src/Journal/Table.antt =====
-- The table's constraints as an invariant, and what the SELECTs of an append find in it.
use aeon_agent_harness.Prelude.{
  ℕ, ◌^◌, ◌<◌, ◌≡◌, refl, String, Bool, true, false, ◌&&◌, Option, none, some, List, [], ◌∷◌, ◌++◌,
  ◌==◌, string_comparable, arith, All, In, All-map, All-map₂, All-append, ==_refl, eq_iff,
}
use aeon_agent_harness.Json.{Json}
use aeon_agent_harness.Checkpoint.{Entry}
use aeon_agent_harness.Journal.{Row, in_run, has_identity, find_row, next_position, new_row}

-- sub_run_id, step_id and phase agree
abbrev pub same_step : Row → Row → Bool
same_step x y = x.sub_run_id == y.sub_run_id && (x.step_id == y.step_id && x.phase == y.phase)

-- Two rows of one run, the second written later, differ in their identity and ascend in position.
abbrev pub Precedes : Row → Row → Type 0
Precedes x y = in_run x.tenant_id x.run_id y ≡ true → (x.seq < y.seq) × (same_step x y ≡ false)

-- The primary key, UNIQUE (tenant_id, run_id, seq), and the range of BIGINT.
abbrev pub WellFormed : List Row → Type 0
WellFormed [] = Unit
WellFormed (x ∷ xs) = (x.seq < 2 ^ 63) × All (Precedes x) xs × WellFormed xs

pub WellFormed-snoc :
    (rows : List Row) (r : Row)
    → WellFormed rows
    → r.seq < 2 ^ 63
    → All (λ x. Precedes x r) rows
    → WellFormed (rows ++ r ∷ [])
WellFormed-snoc [] r h small apart = (small, tt, tt)
WellFormed-snoc (x ∷ rows) r (in_range, later, h) small (here, apart) = (
  in_range,
  All-append (Precedes x) rows (r ∷ []) later (here, tt),
  WellFormed-snoc rows r h small apart,
)

pub lt-next_position :
    (tenant run_id : String) (rows : List Row)
    → All (λ x. in_run tenant run_id x ≡ true → x.seq < next_position tenant run_id rows) rows
unfolding next_position
lt-next_position tenant run_id [] = tt
lt-next_position tenant run_id (row ∷ rows) = (
  λ h. ground arith,
  All-map (λ x. in_run tenant run_id x ≡ true → x.seq < next_position tenant run_id rows)
      (λ x k h. ground (arith, k h)) rows (lt-next_position tenant run_id rows),
)

pub find_row-none :
    (tenant : String) (e : Entry) (rows : List Row)
    → find_row tenant e rows ≡ none
    → All (λ x. has_identity tenant e x ≡ false) rows
unfolding find_row
find_row-none tenant e [] h = tt
find_row-none tenant e (row ∷ rows) h = (ground arith, find_row-none tenant e rows (ground arith))

pub find_row-some :
    (tenant : String) (e : Entry) (rows : List Row) (row : Row)
    → find_row tenant e rows ≡ some row
    → In row rows × (has_identity tenant e row ≡ true)
unfolding find_row
find_row-some tenant e [] row h = cc
find_row-some tenant e (x ∷ rows) row h = ground (arith, find_row-some tenant e rows row)

pub find_row-append :
    (tenant : String) (e : Entry) (rows more : List Row)
    → find_row tenant e rows ≡ none
    → find_row tenant e (rows ++ more) ≡ find_row tenant e more
unfolding find_row
find_row-append tenant e [] more h = refl
find_row-append tenant e (row ∷ rows) more h = ground (arith, find_row-append tenant e rows more)

pub has_identity-new_row :
    (tenant : String) (e : Entry) (seq : ℕ) (payload : Option Json) (now : ℕ)
    → has_identity tenant e (new_row tenant e seq payload now) ≡ true
has_identity-new_row tenant e seq payload now = ground (
  arith,
  ==_refl tenant,
  ==_refl e.run_id,
  ==_refl e.sub_run_id,
  ==_refl e.step_id,
  ==_refl e.phase,
)

Precedes-new_row_at :
    (tenant : String) (e : Entry) (n : ℕ) (payload : Option Json) (now : ℕ) (x : Row)
    → (in_run tenant e.run_id x ≡ true → x.seq < n)
    → has_identity tenant e x ≡ false
    → Precedes x (new_row tenant e n payload now)
Precedes-new_row_at tenant e n payload now x small other same_run =
    let here : in_run tenant e.run_id x ≡ true = ground (
      arith,
      eq_iff tenant x.tenant_id,
      eq_iff x.tenant_id tenant,
      eq_iff e.run_id x.run_id,
      eq_iff x.run_id e.run_id,
    ) in
    (small here, ground (arith, here, other))

-- A row that is not the entry's precedes the row that the entry becomes.
pub Precedes-new_row :
    (tenant : String) (e : Entry) (payload : Option Json) (now : ℕ) (rows : List Row)
    → find_row tenant e rows ≡ none
    → All (λ x. Precedes x (new_row tenant e (next_position tenant e.run_id rows) payload now)) rows
Precedes-new_row tenant e payload now rows h =
    let n = next_position tenant e.run_id rows in
    All-map₂ (λ x. in_run tenant e.run_id x ≡ true → x.seq < n)
      (λ x. has_identity tenant e x ≡ false) (Precedes-new_row_at tenant e n payload now) rows
      (lt-next_position tenant e.run_id rows) (find_row-none tenant e rows h)
