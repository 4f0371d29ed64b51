-- ===== src/ModelGateway/Choice.antt =====
-- Which candidate Decide answers with.
use mathlib.Core.Path.{subst}
use aeon_agent_harness.Prelude.{
  ℕ, String, true, List, [], ◌∷◌, ◌++◌, ◌≡◌, ◌≢◌, refl, ◌⊎◌, inl, inr, arith, keep, All, In,
  In-keep, In-keep_intro, All-append, ◌==◌, string_comparable, eq_iff, Sum-cases, Bool-cases, sym,
  ap,
}
use aeon_agent_harness.Json.{Members}
use aeon_agent_harness.ModelGateway.{
  Candidate, AttemptRecord, DecisionResult, DecideError, no_restricted_candidate,
  all_candidates_failed,
}
use aeon_agent_harness.ModelGateway.Routing.{
  Gateway, succeeded, try_candidate, try_candidates, restrict_pool, some_candidate,
}

some_candidate-pool : (cs pool : List Candidate) → some_candidate cs ≡ inr pool → cs ≡ pool
some_candidate-pool [] pool h = absurd (ground (arith, h))
some_candidate-pool (c ∷ cs) pool h = ground (arith, h)

-- Restricted data goes to in-network candidates only.
abbrev pub IsEligible : String → Candidate → Type 0
IsEligible sensitivity c = (sensitivity ≢ "restricted") ⊎ (c.in_network ≡ true)

pub restrict_pool-In :
    (candidates pool : List Candidate) (sensitivity : String) (c : Candidate)
    → restrict_pool candidates sensitivity ≡ inr pool
    → In c pool
    → In c candidates × IsEligible sensitivity c
unfolding restrict_pool
restrict_pool-In candidates pool sensitivity c h there =
    elim (Bool-cases (sensitivity == "restricted")) [
      | inr free ↦ ground (arith, free, h, there, eq_iff sensitivity "restricted")
      | inl restricted ↦
          let kept : keep (λ c. c.in_network) candidates ≡ pool =
            some_candidate-pool _ pool (ground (arith, restricted, h)) in
          let (inside, near) =
            In-keep (λ c. c.in_network) c candidates (subst (In c) (sym kept) there) in
          (inside, inr near)
    ]

pub restrict_pool-refuses :
    (candidates : List Candidate) (sensitivity : String) (why : DecideError)
    → restrict_pool candidates sensitivity ≡ inl why
    → why ≡ no_restricted_candidate
unfolding restrict_pool
restrict_pool-refuses candidates sensitivity why h =
    elim (Bool-cases (sensitivity == "restricted")) [
      | inr free ↦ absurd (ground (arith, free, h))
      | inl restricted ↦
          none_is_left (keep (λ c. c.in_network) candidates) (ground (arith, restricted, h))
    ]
  where
    none_is_left :
        (cs : List Candidate) → some_candidate cs ≡ inl why → why ≡ no_restricted_candidate
    none_is_left [] k = ground (arith, k)
    none_is_left (c ∷ cs) k = absurd (ground (arith, k))

-- A pool that holds an eligible candidate is not refused.
pub restrict_pool-In_intro :
    (candidates : List Candidate) (sensitivity : String) (c : Candidate)
    → In c candidates
    → IsEligible sensitivity c
    → (pool : List Candidate) × (restrict_pool candidates sensitivity ≡ inr pool) × In c pool
unfolding restrict_pool
restrict_pool-In_intro candidates sensitivity c there fits =
    elim (Bool-cases (sensitivity == "restricted")) [
      | inr free ↦ (candidates, ground (arith, free), there)
      | inl restricted ↦
          let near : c.in_network ≡ true =
            ground (arith, fits, restricted, eq_iff sensitivity "restricted") in
          let kept = In-keep_intro (λ x. x.in_network) c candidates there near in
          (_, ground (arith, restricted, not_empty _ kept), kept)
    ]
  where
    not_empty : (cs : List Candidate) → In c cs → some_candidate cs ≡ inr cs
    not_empty [] h = absurd h
    not_empty (x ∷ cs) h = refl

-- The attempts that an answer of Decide reports.
abbrev pub attempts_of : DecideError ⊎ DecisionResult → List AttemptRecord
attempts_of (inl no_restricted_candidate) = []
attempts_of (inl (all_candidates_failed attempts)) = attempts
attempts_of (inr res) = res.attempts

-- The attempt was at an eligible candidate of the list.
abbrev pub IsOf : List Candidate → String → AttemptRecord → Type 0
IsOf candidates sensitivity a =
    (c : Candidate) × In c candidates
    × IsEligible sensitivity c
    × (a.provider ≡ c.provider)
    × (a.model ≡ c.model)

module _ (g : Gateway) (context : Members) where
  abbrev pub CanAnswer : Candidate → Type 0
  CanAnswer c = (answer : Members × ℕ) × (try_candidate g context c ≡ inr answer)

  -- What a decision says of the candidates in their order.
  abbrev pub IsFirst : List Candidate → DecisionResult → Type 0
  IsFirst cs res =
      (before : List Candidate) × (c : Candidate) × (after : List Candidate) × (cs
        ≡ before ++ c ∷ after)
      × All (λ x. (failed : AttemptRecord) × (try_candidate g context x ≡ inl failed)) before
      × CanAnswer c
      × (res.provider_used ≡ c.provider)
      × (res.model ≡ c.model)

  pub try_candidates-IsFirst :
      (cs : List Candidate) (attempts : List AttemptRecord) (res : DecisionResult)
      → try_candidates g context cs attempts ≡ inr res
      → IsFirst cs res
  unfolding try_candidates
  try_candidates-IsFirst [] attempts res h = absurd (ground (arith, h))
  try_candidates-IsFirst (c ∷ cs) attempts res h = elim (Sum-cases (try_candidate g context c)) [
    | inr (answer, good) ↦
        ([], c, cs, refl, tt, (answer, good), ground (arith, good, h), ground (arith, good, h))
    | inl (failed, bad) ↦
        let (before, x, after, split, none_before, can, who, what) =
          try_candidates-IsFirst cs (attempts ++ failed ∷ []) res (ground (arith, bad, h)) in
        (c ∷ before, x, after, ap (λ l. c ∷ l) split, ((failed, bad), none_before), can, who, what)
  ]

  abbrev answer_of : Candidate → List AttemptRecord → Members × ℕ → DecisionResult
  answer_of c attempts (output, dropped) = record {
    provider_used = c.provider;
    model = c.model;
    output = output;
    attempts = attempts ++ succeeded c ∷ [];
    unsendable_turns_dropped = dropped;
  }

  -- Some candidate that can answer is enough.
  pub try_candidates-answers :
      (cs : List Candidate) (attempts : List AttemptRecord) (c : Candidate)
      → In c cs
      → CanAnswer c
      → (res : DecisionResult) × (try_candidates g context cs attempts ≡ inr res)
  unfolding try_candidates
  try_candidates-answers [] attempts c there can = absurd there
  try_candidates-answers (x ∷ cs) attempts c there (answer, can) =
      elim (Sum-cases (try_candidate g context x)) [
        | inr (a, good) ↦ (answer_of x attempts a, ground (arith, good))
        | inl (failed, bad) ↦ elim there [
          | inl here ↦ absurd (ground (arith, ap (try_candidate g context) here, bad, can))
          | inr later ↦
              let (res, found) =
                try_candidates-answers cs (attempts ++ failed ∷ []) c later (answer, can) in
              (res, ground (arith, bad, found))
        ]
      ]

  try_candidate-failed :
      (c : Candidate) (failed : AttemptRecord)
      → try_candidate g context c ≡ inl failed
      → (failed.provider ≡ c.provider) × (failed.model ≡ c.model)
  unfolding try_candidate
  try_candidate-failed c failed h = ground (arith, h)

  pub try_candidates-IsOf :
      (candidates : List Candidate) (sensitivity : String) (cs : List Candidate)
      (attempts : List AttemptRecord)
      → ((c : Candidate) → In c cs → In c candidates × IsEligible sensitivity c)
      → All (IsOf candidates sensitivity) attempts
      → All (IsOf candidates sensitivity) (attempts_of (try_candidates g context cs attempts))
  unfolding try_candidates
  try_candidates-IsOf candidates sensitivity [] attempts fits h = h
  try_candidates-IsOf candidates sensitivity (c ∷ cs) attempts fits h =
      let (inside, eligible) = fits c (inl refl) in
      elim (Sum-cases (try_candidate g context c)) [
        | inr (answer, good) ↦
            subst
              (λ t. All (IsOf candidates sensitivity) (
                attempts_of (elim t [
                  | inl failed ↦ try_candidates g context cs (attempts ++ failed ∷ [])
                  | inr a ↦ inr (answer_of c attempts a)
                ])))
              (sym good)
              (All-append (IsOf candidates sensitivity) attempts (succeeded c ∷ []) h
                ((c, inside, eligible, refl, refl), tt))
        | inl (failed, bad) ↦
            let (who, what) = try_candidate-failed c failed bad in
            subst
              (λ t. All (IsOf candidates sensitivity) (
                attempts_of (elim t [
                  | inl a ↦ try_candidates g context cs (attempts ++ a ∷ [])
                  | inr a ↦ inr (answer_of c attempts a)
                ])))
              (sym bad)
              (try_candidates-IsOf candidates sensitivity cs (attempts ++ failed ∷ [])
                (λ x there. fits x (inr there))
                (All-append (IsOf candidates sensitivity) attempts (failed ∷ []) h
                  ((c, inside, eligible, who, what), tt)))
      ]
