-- ===== src/Journal/Load.antt =====
-- Load: which rows become records, and where the journal continues.
use Prim.Native.Nat.{max}
use aeon_agent_harness.Prelude.{
  ℕ, suc, ◌^◌, ◌<◌, ◌≡◌, refl, String, Bool, false, List, [], ◌∷◌, ◌++◌, if◌then◌else◌, ◌==◌,
  string_comparable, arith, inr, In, keep, ◌∙◌, map, append-nil, append_assoc, sym,
}
use aeon_agent_harness.Checkpoint.{Record}
use aeon_agent_harness.Checkpoint.State.{RunState, ge64, inc64, new_sub_run_state}
use aeon_agent_harness.Journal.{
  Row, in_run, scan_rows, scanned, load, insert_in_order, order_by_seq, next_position,
}

pub In-insert_in_order : (a r : Row) (xs : List Row) → In a (insert_in_order r xs) → In a (r ∷ xs)
In-insert_in_order a r [] h = h
In-insert_in_order a r (x ∷ xs) h = ground (arith, In-insert_in_order a r xs)

In-insert_in_order_intro : (a r : Row) (xs : List Row) → In a (r ∷ xs) → In a (insert_in_order r xs)
In-insert_in_order_intro a r [] h = h
In-insert_in_order_intro a r (x ∷ xs) h = ground (arith, In-insert_in_order_intro a r xs)

pub In-order_by_seq : (a : Row) (rs : List Row) → In a (order_by_seq rs) → In a rs
In-order_by_seq a [] h = h
In-order_by_seq a (r ∷ rs) h =
    ground (arith, In-insert_in_order a r (order_by_seq rs) h, In-order_by_seq a rs)

pub In-order_by_seq_intro : (a : Row) (rs : List Row) → In a rs → In a (order_by_seq rs)
In-order_by_seq_intro a [] h = h
In-order_by_seq_intro a (r ∷ rs) h =
    In-insert_in_order_intro a r (order_by_seq rs) (ground (arith, In-order_by_seq_intro a rs))

abbrev pub in_sub_run : String → Row → Bool
in_sub_run sub row = row.sub_run_id == sub

pub scan_rows-records :
    (run_id sub : String) (rows : List Row) (acc : List Record) (n : ℕ)
    → (scan_rows run_id sub rows acc n).0 ≡ acc ++ map (scanned run_id) (keep (in_sub_run sub) rows)
unfolding scan_rows
scan_rows-records run_id sub [] acc n = sym (append-nil acc)
scan_rows-records run_id sub (row ∷ rows) acc n =
    let next = if ge64 row.seq n then inc64 row.seq else n in
    let kept = map (scanned run_id) (keep (in_sub_run sub) rows) in
    ground (
      arith,
      scan_rows-records run_id sub rows (acc ++ scanned run_id row ∷ []) next,
      scan_rows-records run_id sub rows acc next,
      append_assoc acc (scanned run_id row ∷ []) kept,
    )

abbrev bound : List Row → ℕ
bound [] = 0
bound (row ∷ rows) = max (suc row.seq) (bound rows)

scan_rows-bound :
    (run_id sub : String) (rows : List Row) (acc : List Record) (n : ℕ)
    → bound rows < 2 ^ 63
    → n < 2 ^ 63
    → (scan_rows run_id sub rows acc n).1 ≡ max n (bound rows)
unfolding scan_rows
scan_rows-bound run_id sub [] acc n h k = omega arith
scan_rows-bound run_id sub (row ∷ rows) acc n h k = ground (
  arith,
  scan_rows-bound run_id sub rows
      (if in_sub_run sub row then acc ++ scanned run_id row ∷ [] else acc)
      (if ge64 row.seq n then inc64 row.seq else n),
)

bound-insert_in_order :
    (r : Row) (xs : List Row) → bound (insert_in_order r xs) ≡ max (suc r.seq) (bound xs)
bound-insert_in_order r [] = refl
bound-insert_in_order r (x ∷ xs) = ground (arith, bound-insert_in_order r xs)

bound-order_by_seq : (rs : List Row) → bound (order_by_seq rs) ≡ bound rs
bound-order_by_seq [] = refl
bound-order_by_seq (r ∷ rs) =
    ground (arith, bound-insert_in_order r (order_by_seq rs), bound-order_by_seq rs)

bound-keep :
    (tenant run_id : String) (rows : List Row)
    → bound (keep (in_run tenant run_id) rows) ≡ next_position tenant run_id rows
unfolding next_position
bound-keep tenant run_id [] = refl
bound-keep tenant run_id (row ∷ rows) = ground (arith, bound-keep tenant run_id rows)

-- The position where a loaded state says the journal continues is the one that the next new entry
-- of the run is given, whichever sub-run was loaded, while the run has positions left.
pub load-next_seq :
    (tenant run_id sub : String) (rows : List Row) (s : RunState)
    → load false tenant run_id sub rows ≡ inr s
    → next_position tenant run_id rows < 2 ^ 63
    → s.next_seq ≡ next_position tenant run_id rows
unfolding load new_sub_run_state
load-next_seq tenant run_id sub rows s h small =
    let mine = order_by_seq (keep (in_run tenant run_id) rows) in
    let total : bound mine ≡ next_position tenant run_id rows =
      bound-order_by_seq (keep (in_run tenant run_id) rows) ∙ bound-keep tenant run_id rows in
    ground (arith, total, scan_rows-bound run_id sub mine [] 0)
