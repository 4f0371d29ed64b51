-- ===== src/Examples/ModelGateways.antt =====
-- A list of three candidates, sorted by insertion, of which the first does not answer.
use aeon_agent_harness.Prelude.{
  length, suc, ◌+◌, Bool, true, false, some, List, [], ◌∷◌, ◌≡◌, refl, ◌⊎◌, inl, inr, arith, leb,
  if◌then◌else◌, ◌==◌, string_comparable, All, All-intro, All-In, In, Bool-cases,
}
use aeon_agent_harness.Prelude.Dict.{lookup}
use aeon_agent_harness.Prelude.Int.{pos, ◌≤ℤ◌, pos_part, neg_part}
use aeon_agent_harness.Json.{text, array, object, no_items, item, Members, no_members, member}
use aeon_agent_harness.ModelGateway.{Candidate, DecisionResult}
use aeon_agent_harness.ModelGateway.Messages.{
  empty_answer, is_blank, drop_unsendable_assistant_turns,
}
use aeon_agent_harness.ModelGateway.Routing.{
  Provider, Gateway, Ascends, Sorting, try_candidate, decide,
}
use aeon_agent_harness.ModelGateway.Choice.{attempts_of}
use aeon_agent_harness.ModelGateway.Decisions.{IsBest, decide-IsBest}
use aeon_agent_harness.ModelGateway.Bundle.{
  CandidateDoc, ModelProfileDoc, resolve_profile, resolve_candidates, check_inference_class,
}
use aeon_agent_harness.ModelGateway.Profiles.{IsDeclaredBy, decide-IsDeclaredBy}
use aeon_agent_harness.Examples.Ledgers.{dollars}

abbrev before : Candidate → Candidate → Bool
before c x =
    leb (pos_part c.priority + neg_part x.priority) (pos_part x.priority + neg_part c.priority)

abbrev place : Candidate → List Candidate → List Candidate
place c [] = c ∷ []
place c (x ∷ cs) = let rest = place c cs in if before c x then c ∷ x ∷ cs else x ∷ rest

abbrev by_insertion : List Candidate → List Candidate
by_insertion [] = []
by_insertion (c ∷ cs) = place c (by_insertion cs)

In-place : (x c : Candidate) (cs : List Candidate) → In x (place c cs) → (c ≡ x) ⊎ In x cs
In-place x c [] h = ground (arith, h)
In-place x c (y ∷ cs) h = ground (arith, h, In-place x c cs)

In-place_intro : (x c : Candidate) (cs : List Candidate) → (c ≡ x) ⊎ In x cs → In x (place c cs)
In-place_intro x c [] h = ground (arith, h)
In-place_intro x c (y ∷ cs) h = ground (arith, h, In-place_intro x c cs)

pub In-by_insertion : (x : Candidate) (cs : List Candidate) → In x (by_insertion cs) → In x cs
In-by_insertion x [] h = h
In-by_insertion x (c ∷ cs) h =
    ground (arith, In-place x c (by_insertion cs) h, In-by_insertion x cs)

pub In-by_insertion_intro : (x : Candidate) (cs : List Candidate) → In x cs → In x (by_insertion cs)
In-by_insertion_intro x [] h = h
In-by_insertion_intro x (c ∷ cs) h =
    ground (arith, h, In-place_intro x c (by_insertion cs), In-by_insertion_intro x cs)

place-Ascends : (c : Candidate) (cs : List Candidate) → Ascends cs → Ascends (place c cs)
place-Ascends c [] h = (tt, tt)
place-Ascends c (x ∷ cs) (least, h) = elim (Bool-cases (before c x)) [
  | inl first ↦
      let below : c.priority ≤ℤ x.priority = ground (arith, first) in
      let all =
        All-intro (λ y. c.priority ≤ℤ y.priority) cs
          (λ y there.
            ground (arith, below, All-In (λ z. x.priority ≤ℤ z.priority) cs y least there)) in
      ground (arith, first, below, all, least, h)
  | inr later ↦
      let all =
        All-intro (λ y. x.priority ≤ℤ y.priority) (place c cs)
          (λ y there. ground (
            arith,
            later,
            In-place y c cs there,
            All-In (λ z. x.priority ≤ℤ z.priority) cs y least,
          )) in
      ground (arith, later, all, place-Ascends c cs h)
]

pub by_insertion-Ascends : (cs : List Candidate) → Ascends (by_insertion cs)
by_insertion-Ascends [] = tt
by_insertion-Ascends (c ∷ cs) = place-Ascends c (by_insertion cs) (by_insertion-Ascends cs)

length-place : (c : Candidate) (cs : List Candidate) → length (place c cs) ≡ suc (length cs)
length-place c [] = refl
length-place c (x ∷ cs) = ground (arith, length-place c cs)

pub length-by_insertion : (cs : List Candidate) → length (by_insertion cs) ≡ length cs
length-by_insertion [] = refl
length-by_insertion (c ∷ cs) =
    ground (arith, length-place c (by_insertion cs), length-by_insertion cs)

abbrev pub insertion : Sorting
insertion = record {
  sort = by_insertion;
  sort_ascends = by_insertion-Ascends;
  In-sort = In-by_insertion;
  In-sort_intro = In-by_insertion_intro;
  length-sort = length-by_insertion;
}

abbrev outside : Candidate
outside = record { provider = "far"; model = "big"; priority = pos 1; in_network = false }

abbrev silent : Candidate
silent = record { provider = "near"; model = "mute"; priority = pos 0; in_network = true }

abbrev inside : Candidate
inside = record { provider = "near"; model = "small"; priority = pos 2; in_network = true }

abbrev answer : Members
answer =
    member "choices"
      (array (
        item
          (object (member "message" (object (member "content" (text "hi") no_members)) no_members))
          no_items))
      no_members

abbrev near : Provider
near input = inr answer

abbrev pub gateway : Gateway
gateway = record {
  providers = ("near", near) ∷ [];
  quality = some (λ provider model. model == "mute");
}

abbrev candidates : List Candidate
candidates = outside ∷ inside ∷ silent ∷ []

small_answers : try_candidate gateway no_members inside ≡ inr (answer, 0)
unfolding try_candidate lookup empty_answer is_blank drop_unsendable_assistant_turns
small_answers = refl

decide-IsBest_example :
    (res : DecisionResult) × (decide insertion gateway candidates no_members "restricted" ≡ inr res)
    × IsBest insertion gateway candidates no_members "restricted" inside res
decide-IsBest_example =
    decide-IsBest insertion gateway candidates no_members "restricted" inside (inr (inl refl))
      (inr refl) ((answer, 0), small_answers)

abbrev hosted : CandidateDoc dollars
hosted = record {
  provider = "near";
  model = "small";
  modality = "text";
  inference_class = "local";
  priority = pos 2;
  cost_model = "";
  cost_per_million_input_tokens = 0;
  cost_per_million_output_tokens = 0;
}

abbrev private_profile : ModelProfileDoc dollars
private_profile = record {
  profile = "private";
  local_inference = some (record { environment = "dc"; allowed_providers = "near" ∷ [] });
  routing_constraints =
      some (record { data_sensitivity = "restricted"; in_network_providers = "near" ∷ [] });
  candidates = hosted ∷ [];
}

private_resolves :
    resolve_profile dollars (private_profile ∷ []) "private" ≡ inr (inside ∷ [], "restricted")
unfolding resolve_profile resolve_candidates check_inference_class
private_resolves = refl

decide-IsDeclaredBy_example :
    All
      (IsDeclaredBy dollars (private_profile ∷ []) "private")
      (attempts_of (decide insertion gateway (inside ∷ []) no_members "restricted"))
decide-IsDeclaredBy_example =
    decide-IsDeclaredBy dollars insertion gateway no_members (private_profile ∷ []) "private"
      (inside ∷ []) "restricted" private_resolves
