-- ===== src/Checkpoint/Order.antt =====
-- Sorting a run's records by their positions loses none, and puts them in order.
use aeon_agent_harness.Prelude.{
  ℕ, Bool, true, false, List, [], ◌∷◌, ◌≡◌, refl, arith, All, Bool-cases, inl, inr, In, All-map,
  any, ◌||◌,
}
use aeon_agent_harness.Checkpoint.{Record}
use aeon_agent_harness.Checkpoint.State.{ge64, insert_by_seq, sort_by_seq}

insert_by_seq-All {κ} :
    (P : Record → Type κ) (r : Record) (xs : List Record)
    → P r
    → All P xs
    → All P (insert_by_seq r xs)
insert_by_seq-All P r [] p h = (p, tt)
insert_by_seq-All P r (x ∷ xs) p (q, h) = ground (arith, insert_by_seq-All P r xs p h)

abbrev pub Ascends : List Record → Type 0
Ascends [] = Unit
Ascends (x ∷ xs) = All (λ y. ge64 y.seq x.seq ≡ true) xs × Ascends xs

ge64_trans : (a b c : ℕ) → ge64 a b ≡ true → ge64 b c ≡ true → ge64 a c ≡ true
ge64_trans a b c h k = ground arith

ge64_total : (a b : ℕ) → ge64 a b ≡ false → ge64 b a ≡ true
ge64_total a b h = ground arith

insert_by_seq-Ascends : (r : Record) (xs : List Record) → Ascends xs → Ascends (insert_by_seq r xs)
insert_by_seq-Ascends r [] h = (tt, tt)
insert_by_seq-Ascends r (x ∷ xs) (least, h) = elim (Bool-cases (ge64 x.seq r.seq)) [
  | inl first ↦ rw first (
    (
      first,
      All-map (λ y. ge64 y.seq x.seq ≡ true) (λ y k. ge64_trans y.seq x.seq r.seq k first) xs least,
    ),
    (least, h),
  )
  | inr later ↦ rw later (
    insert_by_seq-All (λ y. ge64 y.seq x.seq ≡ true) r xs (ge64_total x.seq r.seq later) least,
    insert_by_seq-Ascends r xs h,
  )
]

pub sort_by_seq-Ascends : (rs : List Record) → Ascends (sort_by_seq rs)
sort_by_seq-Ascends [] = tt
sort_by_seq-Ascends (r ∷ rs) = insert_by_seq-Ascends r (sort_by_seq rs) (sort_by_seq-Ascends rs)

In-insert_by_seq : (a r : Record) (xs : List Record) → In a (insert_by_seq r xs) → In a (r ∷ xs)
In-insert_by_seq a r [] h = h
In-insert_by_seq a r (x ∷ xs) h = ground (arith, In-insert_by_seq a r xs)

pub In-sort_by_seq : (a : Record) (rs : List Record) → In a (sort_by_seq rs) → In a rs
In-sort_by_seq a [] h = h
In-sort_by_seq a (r ∷ rs) h =
    ground (arith, In-insert_by_seq a r (sort_by_seq rs) h, In-sort_by_seq a rs)

All-insert_by_seq_intro {κ} :
    (P : Record → Type κ) (r : Record) (xs : List Record)
    → All P (insert_by_seq r xs)
    → All P (r ∷ xs)
All-insert_by_seq_intro P r [] h = h
All-insert_by_seq_intro P r (x ∷ xs) h = ground (arith, All-insert_by_seq_intro P r xs)

pub All-sort_by_seq_intro {κ} :
    (P : Record → Type κ) (rs : List Record) → All P (sort_by_seq rs) → All P rs
All-sort_by_seq_intro P [] h = tt
All-sort_by_seq_intro P (r ∷ rs) h =
    let both = All-insert_by_seq_intro P r (sort_by_seq rs) h in
    (both.0, All-sort_by_seq_intro P rs both.1)

any-insert_by_seq :
    (p : Record → Bool) (r : Record) (xs : List Record)
    → any p (insert_by_seq r xs) ≡ (p r || any p xs)
any-insert_by_seq p r [] = refl
any-insert_by_seq p r (x ∷ xs) = ground (arith, any-insert_by_seq p r xs)

pub any-sort_by_seq : (p : Record → Bool) (rs : List Record) → any p (sort_by_seq rs) ≡ any p rs
any-sort_by_seq p [] = refl
any-sort_by_seq p (r ∷ rs) = rw (any-insert_by_seq p r (sort_by_seq rs), any-sort_by_seq p rs)
