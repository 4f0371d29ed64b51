-- ===== src/DecideRoute/Growth.antt =====
-- go/internal/api/model_gateway_handlers.go: how many rows of a run a call adds.
use aeon_agent_harness.Prelude.{
  ℕ, suc, ◌+◌, ◌≤◌, String, Bool, false, Option, none, some, List, [], ◌∷◌, ◌++◌, ◌≡◌, refl, ◌⊎◌,
  inl, inr, arith, length, keep, keep-append, length-append, ◌==◌, string_comparable, Sum-cases,
  Bool-cases, ap, ◌∙◌, ◌≢◌, eq_iff,
}
use aeon_agent_harness.Json.{Members}
use aeon_agent_harness.Finops.{Dollars}
use aeon_agent_harness.Finops.Ledger.{CostEntry, CostRow, record_entry, of_run, cost_row}
use aeon_agent_harness.ModelGateway.{Candidate, AttemptRecord, DecisionResult, DecideError}
use aeon_agent_harness.ModelGateway.Routing.{
  Gateway, Sorting, succeeded, try_candidate, try_candidates, restrict_pool, decide, was_discarded,
  discarded_attempts, some_candidate,
}
use aeon_agent_harness.DecideRoute.{Numerals, Setup}
use aeon_agent_harness.DecideRoute.Costs.{
  write_cost, discarded_entry, record_discarded, record_discarded_attempts, replay_entry,
  served_entry, record_cost,
}
use aeon_agent_harness.DecideRoute.Route.{attempts_of_error}

-- How many attempts had an answer that was discarded.
abbrev pub discards : List AttemptRecord → ℕ
discards attempts = length (keep was_discarded attempts)

discards-append : (xs ys : List AttemptRecord) → discards (xs ++ ys) ≡ discards xs + discards ys
discards-append xs ys =
    ap length (keep-append was_discarded xs ys)
    ∙ length-append (keep was_discarded xs) (keep was_discarded ys)

-- What an answer of Decide makes the ledger write: the rows of the discarded attempts, and one more
-- for an answer that is served.
abbrev pub rows_of : DecideError ⊎ DecisionResult → ℕ
rows_of (inl why) = discards (attempts_of_error why)
rows_of (inr res) = suc (discards res.attempts)

module _ (g : Gateway) (context : Members) where
  try_candidates-rows :
      (cs : List Candidate) (attempts : List AttemptRecord)
      → rows_of (try_candidates g context cs attempts) ≤ discards attempts + length cs
  unfolding try_candidates
  try_candidates-rows [] attempts = ground arith
  try_candidates-rows (c ∷ cs) attempts = elim (Sum-cases (try_candidate g context c)) [
    | inl (failed, bad) ↦ ground (
      arith,
      bad,
      try_candidates-rows cs (attempts ++ failed ∷ []),
      discards-append attempts (failed ∷ []),
    )
    | inr (answer, good) ↦ ground (arith, good, discards-append attempts (succeeded c ∷ []))
  ]

length-keep : {A : Type 0} (p : A → Bool) (xs : List A) → length (keep p xs) ≤ length xs
length-keep p [] = ground arith
length-keep p (x ∷ xs) = ground (arith, length-keep p xs)

some_candidate-length :
    (cs pool : List Candidate) → some_candidate cs ≡ inr pool → length pool ≡ length cs
some_candidate-length [] pool h = absurd (ground (arith, h))
some_candidate-length (c ∷ cs) pool h = ground (arith, h)

restrict_pool-length :
    (candidates pool : List Candidate) (sensitivity : String)
    → restrict_pool candidates sensitivity ≡ inr pool
    → length pool ≤ length candidates
unfolding restrict_pool
restrict_pool-length candidates pool sensitivity h = ground (
  arith,
  h,
  length-keep (λ c. c.in_network) candidates,
  some_candidate-length (keep (λ c. c.in_network) candidates) pool,
)

restrict_pool-rows :
    (candidates : List Candidate) (sensitivity : String) (why : DecideError)
    → restrict_pool candidates sensitivity ≡ inl why
    → discards (attempts_of_error why) ≡ 0
unfolding restrict_pool
restrict_pool-rows candidates sensitivity why h = elim (Bool-cases (sensitivity == "restricted")) [
  | inr free ↦ absurd (ground (arith, free, h))
  | inl restricted ↦ none_left (keep (λ c. c.in_network) candidates) (ground (arith, restricted, h))
]
  where
    none_left :
        (cs : List Candidate) → some_candidate cs ≡ inl why → discards (attempts_of_error why) ≡ 0
    none_left [] k = ground (arith, k)
    none_left (c ∷ cs) k = absurd (ground (arith, k))

pub decide-rows :
    (sorting : Sorting) (g : Gateway) (candidates : List Candidate) (context : Members)
    (sensitivity : String)
    → rows_of (decide sorting g candidates context sensitivity) ≤ length candidates
unfolding decide
decide-rows sorting g candidates context sensitivity =
    elim (Sum-cases (restrict_pool candidates sensitivity)) [
      | inl (why, refused) ↦
          ground (arith, refused, restrict_pool-rows candidates sensitivity why refused)
      | inr (pool, kept) ↦ ground (
        arith,
        kept,
        try_candidates-rows g context (sorting.sort pool) [],
        sorting.length-sort pool,
        restrict_pool-length candidates pool sensitivity kept,
      )
    ]

module _ (fl : Dollars) (nm : Numerals fl) (su : Setup fl) (t r : String) where
  -- How many calls of the run are recorded, served or not.
  abbrev pub recorded : List (CostRow fl) → ℕ
  recorded costs = length (keep (of_run fl t r) costs)

  recorded-append : (xs ys : List (CostRow fl)) → recorded (xs ++ ys) ≡ recorded xs + recorded ys
  recorded-append xs ys =
      ap length (keep-append (of_run fl t r) xs ys)
      ∙ length-append (keep (of_run fl t r) xs) (keep (of_run fl t r) ys)

  write_cost-recorded :
      (ledger : Option String) (e : CostEntry fl) (costs : List (CostRow fl))
      → recorded (write_cost fl nm su ledger e costs) ≤ suc (recorded costs)
  unfolding record_entry
  write_cost-recorded none e costs = ground arith
  write_cost-recorded (some tenant) e costs =
      ground (arith, recorded-append costs (cost_row fl tenant e ∷ []))

  record_discarded-recorded :
      (ledger : Option String) (run ref : String) (attempts : List AttemptRecord)
      (costs : List (CostRow fl))
      → recorded (record_discarded fl nm su ledger run ref attempts costs)
        ≤ length attempts + recorded costs
  unfolding record_discarded
  record_discarded-recorded ledger run ref [] costs = ground arith
  record_discarded-recorded ledger run ref (a ∷ attempts) costs =
      let e = discarded_entry fl nm su run ref a in
      ground (
        arith,
        record_discarded-recorded ledger run ref attempts costs,
        record_discarded-recorded ledger run ref attempts (write_cost fl nm su ledger e costs),
        write_cost-recorded ledger e costs,
      )

  pub record_discarded_attempts-recorded :
      (ledger : Option String) (run ref : String) (attempts : List AttemptRecord)
      (costs : List (CostRow fl))
      → recorded (record_discarded_attempts fl nm su ledger run ref attempts costs)
        ≤ discards attempts + recorded costs
  unfolding record_discarded_attempts discarded_attempts
  record_discarded_attempts-recorded ledger run ref attempts costs =
      record_discarded-recorded ledger run ref (keep was_discarded attempts) costs

  pub record_cost-recorded :
      (ledger : Option String) (run ref : String) (res : DecisionResult) (costs : List (CostRow fl))
      → recorded (record_cost fl nm su ledger run ref res costs)
        ≤ suc (discards res.attempts) + recorded costs
  unfolding record_cost
  record_cost-recorded ledger run ref res costs =
      let served = write_cost fl nm su ledger (served_entry fl nm su run ref res) costs in
      ground (
        arith,
        write_cost-recorded ledger (replay_entry fl nm su run ref res) costs,
        write_cost-recorded ledger (served_entry fl nm su run ref res) costs,
        record_discarded_attempts-recorded ledger run ref res.attempts served,
      )

  -- What is written there is of another tenant or of another run.
  abbrev pub IsElsewhere : Option String → String → Type 0
  IsElsewhere ledger run = (ledger ≢ some t) ⊎ (run ≢ r)

  cost_row-elsewhere :
      (tenant : String) (e : CostEntry fl)
      → IsElsewhere (some tenant) e.run_id
      → of_run fl t r (cost_row fl tenant e) ≡ false
  cost_row-elsewhere tenant e (inl other) = elim (Bool-cases (tenant == t)) [
    | inl same ↦ absurd (other (ap (λ x. some x) (ground (arith, same, eq_iff tenant t))))
    | inr differs ↦ ground (arith, differs)
  ]
  cost_row-elsewhere tenant e (inr other) =
      ground (arith, other, eq_iff e.run_id r, eq_iff e.run_id "")

  write_cost-elsewhere :
      (ledger : Option String) (e : CostEntry fl) (costs : List (CostRow fl))
      → IsElsewhere ledger e.run_id
      → recorded (write_cost fl nm su ledger e costs) ≡ recorded costs
  unfolding record_entry
  write_cost-elsewhere none e costs other = refl
  write_cost-elsewhere (some tenant) e costs other =
      ground (
        arith,
        cost_row-elsewhere tenant e other,
        recorded-append costs (cost_row fl tenant e ∷ []),
      )

  record_discarded-elsewhere :
      (ledger : Option String) (run ref : String) (attempts : List AttemptRecord)
      (costs : List (CostRow fl))
      → IsElsewhere ledger run
      → recorded (record_discarded fl nm su ledger run ref attempts costs) ≡ recorded costs
  unfolding record_discarded discarded_entry
  record_discarded-elsewhere ledger run ref [] costs other = refl
  record_discarded-elsewhere ledger run ref (a ∷ attempts) costs other =
      let e = discarded_entry fl nm su run ref a in
      ground (
        arith,
        record_discarded-elsewhere ledger run ref attempts costs other,
        record_discarded-elsewhere ledger run ref attempts (write_cost fl nm su ledger e costs)
            other,
        write_cost-elsewhere ledger e costs other,
      )

  pub record_discarded_attempts-elsewhere :
      (ledger : Option String) (run ref : String) (attempts : List AttemptRecord)
      (costs : List (CostRow fl))
      → IsElsewhere ledger run
      → recorded (record_discarded_attempts fl nm su ledger run ref attempts costs) ≡ recorded costs
  unfolding record_discarded_attempts discarded_attempts
  record_discarded_attempts-elsewhere ledger run ref attempts costs other =
      record_discarded-elsewhere ledger run ref (keep was_discarded attempts) costs other

  pub record_cost-elsewhere :
      (ledger : Option String) (run ref : String) (res : DecisionResult) (costs : List (CostRow fl))
      → IsElsewhere ledger run
      → recorded (record_cost fl nm su ledger run ref res costs) ≡ recorded costs
  unfolding record_cost
  record_cost-elsewhere ledger run ref res costs other =
      let served = write_cost fl nm su ledger (served_entry fl nm su run ref res) costs in
      ground (
        arith,
        write_cost-elsewhere ledger (replay_entry fl nm su run ref res) costs other,
        write_cost-elsewhere ledger (served_entry fl nm su run ref res) costs other,
        record_discarded_attempts-elsewhere ledger run ref res.attempts served other,
      )
