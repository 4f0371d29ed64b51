-- ===== src/ModelGateway/Decisions.antt =====
-- go/internal/modelgateway/gateway.go: what Decide promises of the candidates.
use mathlib.Core.Path.{subst}
use aeon_agent_harness.Prelude.{
  String, List, [], ◌∷◌, ◌++◌, ◌≡◌, refl, inl, inr, arith, All, In, All-In, In-append,
  In-append_right, Sum-cases, sym,
}
use aeon_agent_harness.Prelude.Int.{◌≤ℤ◌}
use aeon_agent_harness.Json.{Members}
use aeon_agent_harness.ModelGateway.{
  Candidate, AttemptRecord, DecisionResult, no_restricted_candidate,
}
use aeon_agent_harness.ModelGateway.Routing.{
  Gateway, Sorting, Ascends, try_candidate, try_candidates, restrict_pool, decide,
}
use aeon_agent_harness.ModelGateway.Choice.{
  IsEligible, restrict_pool-refuses, restrict_pool-In, restrict_pool-In_intro, CanAnswer,
  try_candidates-IsFirst, try_candidates-answers, attempts_of, IsOf, try_candidates-IsOf,
}

Ascends-after :
    (before : List Candidate) (c x : Candidate) (after : List Candidate)
    → Ascends (before ++ c ∷ after)
    → In x after
    → c.priority ≤ℤ x.priority
Ascends-after [] c x after (h, _) there = All-In (λ y. c.priority ≤ℤ y.priority) after x h there
Ascends-after (b ∷ before) c x after (_, h) there = Ascends-after before c x after h there

module _ (sorting : Sorting) (g : Gateway) (candidates : List Candidate) (context : Members) where
  -- The answer comes from an eligible candidate that can answer, of a priority no greater than that.
  abbrev pub IsBest : String → Candidate → DecisionResult → Type 0
  IsBest sensitivity x res =
      (c : Candidate) × In c candidates
      × IsEligible sensitivity c
      × CanAnswer g context c
      × (c.priority ≤ℤ x.priority)
      × (res.provider_used ≡ c.provider)
      × (res.model ≡ c.model)

  -- Where some candidate that the sensitivity allows can answer, Decide gives an answer, and it
  -- comes from a candidate of the list that the sensitivity allows, that can answer and whose
  -- priority is at most that candidate's.
  pub decide-IsBest :
      (sensitivity : String) (x : Candidate)
      → In x candidates
      → IsEligible sensitivity x
      → CanAnswer g context x
      → (res : DecisionResult) × (decide sorting g candidates context sensitivity ≡ inr res)
        × IsBest sensitivity x res
  unfolding decide
  decide-IsBest sensitivity x there fits (answer, can) =
      let (pool, kept, inside) = restrict_pool-In_intro candidates sensitivity x there fits in
      let x_in = sorting.In-sort_intro x pool inside in
      let (res, found) =
        try_candidates-answers g context (sorting.sort pool) [] x x_in (answer, can) in
      let (before, c, after, split, none_before, answers, who, what) =
        try_candidates-IsFirst g context (sorting.sort pool) [] res found in
      let c_in = subst (In c) (sym split) (In-append_right c before (c ∷ after) (inl refl)) in
      let (c_there, c_fits) =
        restrict_pool-In candidates pool sensitivity c kept (sorting.In-sort c pool c_in) in
      let below : c.priority ≤ℤ x.priority =
        elim (In-append x before (c ∷ after) (subst (In x) split x_in)) [
          | inl early ↦
              let (failed, bad) =
                All-In (λ y. (failed : AttemptRecord) × (try_candidate g context y ≡ inl failed))
                  before x none_before early in
              absurd (ground (arith, bad, can))
          | inr (inl here) ↦ ground (arith, here)
          | inr (inr late) ↦
              Ascends-after before c x after (subst Ascends split (sorting.sort_ascends pool)) late
        ] in
      (res, ground (arith, kept, found), (c, c_there, c_fits, answers, below, who, what))

  -- Every attempt that Decide reports, with an answer or with an error, was at a candidate of the
  -- list, and at one inside the network where the sensitivity is "restricted".
  pub decide-IsOf :
      (sensitivity : String)
      → All
          (IsOf candidates sensitivity)
          (attempts_of (decide sorting g candidates context sensitivity))
  unfolding decide
  decide-IsOf sensitivity = elim (Sum-cases (restrict_pool candidates sensitivity)) [
    | inl (why, refused) ↦
        let nobody = restrict_pool-refuses candidates sensitivity why refused in
        let gone : inl no_restricted_candidate ≡ decide sorting g candidates context sensitivity =
          ground (arith, refused, nobody) in
        subst (λ answer. All (IsOf candidates sensitivity) (attempts_of answer)) gone tt
    | inr (pool, kept) ↦
        let tried : try_candidates g context (sorting.sort pool) []
            ≡ decide sorting g candidates context sensitivity =
          ground (arith, kept) in
        subst (λ answer. All (IsOf candidates sensitivity) (attempts_of answer)) tried
          (try_candidates-IsOf g context candidates sensitivity (sorting.sort pool) []
            (λ c there.
              restrict_pool-In candidates pool sensitivity c kept (sorting.In-sort c pool there))
            tt)
  ]
