-- ===== src/ModelGateway/Routing.antt =====
-- go/internal/modelgateway/gateway.go: Decide, over the registered providers.
use aeon_agent_harness.Prelude.{
  length, ◌≡◌, ℕ, String, Bool, true, false, not, Option, none, some, List, [], ◌∷◌, ◌++◌, ◌⊎◌, inl,
  inr, keep, if◌then◌else◌, ◌==◌, string_comparable, nat_comparable, All, In,
}
use aeon_agent_harness.Prelude.Dict.{lookup, insert}
use aeon_agent_harness.Prelude.Int.{◌≤ℤ◌}
use aeon_agent_harness.Json.{text, Members}
use aeon_agent_harness.ModelGateway.{
  Candidate, AttemptRecord, DecisionResult, DecideError, no_restricted_candidate,
  all_candidates_failed,
}
use aeon_agent_harness.ModelGateway.Messages.{
  empty_answer, set_member, drop_unsendable_assistant_turns,
}

-- providers.Provider: an error, or the output for an input.
abbrev pub Provider : Type 0
Provider = Members → String ⊎ Members

-- `quality` is absent where the gateway has no quality gate.
pub record Gateway : Type 0 where
  pub providers : List (String × Provider)
  pub quality : Option (String → String → Bool)

unfoldable pub new_gateway : Gateway
new_gateway = record { providers = []; quality = none }

unfoldable pub register_provider : String → Provider → Gateway → Gateway
register_provider name p g = record g { providers = insert name p g.providers }

-- Each is at most as great as what follows it.
abbrev pub Ascends : List Candidate → Type 0
Ascends [] = Unit {0}
Ascends (c ∷ cs) = All (λ x. c.priority ≤ℤ x.priority) cs × Ascends cs

-- sort.Slice by priority. It is not stable, so an order of equal priorities is not promised.
pub record Sorting : Type 0 where
  pub sort : List Candidate → List Candidate
  pub sort_ascends : (cs : List Candidate) → Ascends (sort cs)
  pub In-sort : (c : Candidate) (cs : List Candidate) → In c (sort cs) → In c cs
  pub In-sort_intro : (c : Candidate) (cs : List Candidate) → In c cs → In c (sort cs)
  pub length-sort : (cs : List Candidate) → length (sort cs) ≡ length cs

abbrev attempt : Candidate → String → Option String → Option Members → AttemptRecord
attempt c err cause discarded = record {
  provider = c.provider;
  model = c.model;
  err = err;
  cause = cause;
  discarded_output = discarded;
}

abbrev pub succeeded : Candidate → AttemptRecord
succeeded c = attempt c "" none none

-- A provider's answer, with how many turns were dropped from what it was asked.
abbrev judge_output : Candidate → ℕ → Members → AttemptRecord ⊎ (Members × ℕ)
judge_output c dropped output =
    if not (empty_answer output == "")
    then inl (attempt c (empty_answer output) none (some output))
    else inr (output, dropped)

abbrev ask : Candidate → Members → Provider → AttemptRecord ⊎ (Members × ℕ)
ask c context provider =
    let (input, dropped) =
      drop_unsendable_assistant_turns (set_member "model" (text c.model) context) in
    elim (provider input) [
      | inl err ↦ inl (attempt c err (some err) none)
      | inr output ↦ judge_output c dropped output
    ]

abbrev is_degraded : Option (String → String → Bool) → Candidate → Bool
is_degraded none c = false
is_degraded (some gate) c = gate c.provider c.model

-- One round of the loop: the attempt that failed, or the output.
unfoldable pub try_candidate : Gateway → Members → Candidate → AttemptRecord ⊎ (Members × ℕ)
try_candidate g context c =
    if is_degraded g.quality c
    then inl (attempt c "skipped: quality score degraded below threshold" none none)
    else elim (lookup c.provider g.providers) [
      | none ↦ inl (attempt c "provider not registered" none none)
      | some provider ↦ ask c context provider
    ]

unfoldable pub try_candidates :
    Gateway → Members → List Candidate → List AttemptRecord → DecideError ⊎ DecisionResult
try_candidates g context [] attempts = inl (all_candidates_failed attempts)
try_candidates g context (c ∷ cs) attempts = elim (try_candidate g context c) [
  | inl failed ↦ try_candidates g context cs (attempts ++ failed ∷ [])
  | inr (output, dropped) ↦ inr (record {
    provider_used = c.provider;
    model = c.model;
    output = output;
    attempts = attempts ++ succeeded c ∷ [];
    unsendable_turns_dropped = dropped;
  })
]

abbrev pub some_candidate : List Candidate → DecideError ⊎ List Candidate
some_candidate [] = inl no_restricted_candidate
some_candidate (c ∷ cs) = inr (c ∷ cs)

unfoldable pub restrict_pool : List Candidate → String → DecideError ⊎ List Candidate
restrict_pool candidates sensitivity =
    if not (sensitivity == "restricted")
    then inr candidates
    else some_candidate (keep (λ c. c.in_network) candidates)

unfoldable pub decide :
    Sorting → Gateway → List Candidate → Members → String → DecideError ⊎ DecisionResult
decide sorting g candidates context sensitivity = elim (restrict_pool candidates sensitivity) [
  | inl why ↦ inl why
  | inr pool ↦ try_candidates g context (sorting.sort pool) []
]

-- Causes
unfoldable pub causes : List AttemptRecord → List String
causes [] = []
causes (a ∷ attempts) = elim a.cause [ none ↦ causes attempts | some err ↦ err ∷ causes attempts ]

abbrev pub was_discarded : AttemptRecord → Bool
was_discarded a = elim a.discarded_output [ none ↦ false | some _ ↦ true ]

unfoldable pub discarded_attempts : List AttemptRecord → List AttemptRecord
discarded_attempts attempts = keep was_discarded attempts
