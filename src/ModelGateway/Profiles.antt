-- ===== src/ModelGateway/Profiles.antt =====
-- go/internal/modelgateway/bundle.go and gateway.go: what a resolved profile lets Decide ask.
use mathlib.Core.Path.{subst}
use aeon_agent_harness.Prelude.{
  String, true, Option, none, List, [], ◌∷◌, ◌≡◌, ◌≢◌, refl, ◌⊎◌, inl, inr, arith, All, All-map, In,
  any, none, some, ◌==◌, string_comparable, eq_iff, Option-cases, Sum-cases, Bool-cases, sym, ap,
  ◌∙◌,
}
use aeon_agent_harness.Json.{Members}
use aeon_agent_harness.Finops.{Dollars}
use aeon_agent_harness.ModelGateway.{Candidate, AttemptRecord}
use aeon_agent_harness.ModelGateway.Bundle.{
  ModelProfileDoc, CandidateDoc, LocalInferenceException, RoutingConstraints, is_chat_servable,
  is_allowed_locally, in_network_of, sensitivity_of, candidate_of, check_candidate,
  check_inference_class, resolve_candidates, resolve_profile,
}
use aeon_agent_harness.ModelGateway.Routing.{Gateway, Sorting, decide}
use aeon_agent_harness.ModelGateway.Choice.{attempts_of, IsOf}
use aeon_agent_harness.ModelGateway.Decisions.{decide-IsOf}

-- A provider that the constraints list as inside the network.
abbrev pub IsInNetwork : Option RoutingConstraints → String → Type 0
IsInNetwork none provider = ⊥
IsInNetwork (some rc) provider = In provider rc.in_network_providers

In-any_same :
    (provider : String) (ps : List String) → any (λ p. p == provider) ps ≡ true → In provider ps
In-any_same provider [] h = absurd (ground (arith, h))
In-any_same provider (p ∷ ps) h = ground (arith, h, eq_iff p provider, In-any_same provider ps)

in_network_of-IsInNetwork :
    (rc : Option RoutingConstraints) (provider : String)
    → in_network_of rc provider ≡ true
    → IsInNetwork rc provider
in_network_of-IsInNetwork none provider h = absurd (ground (arith, h))
in_network_of-IsInNetwork (some rc) provider h = In-any_same provider rc.in_network_providers h

module _ (fl : Dollars) where
  -- A chat model that runs in the cloud, or locally with a provider that the profile declares.
  abbrev pub IsServable : Option LocalInferenceException → CandidateDoc fl → Type 0
  IsServable exception d =
      (is_chat_servable d.modality ≡ true)
      × ((d.inference_class ≡ "cloud")
          ⊎ ((d.inference_class ≡ "local") × (is_allowed_locally d.provider exception ≡ true)))

  check_candidate-IsServable :
      (exception : Option LocalInferenceException) (d : CandidateDoc fl)
      → check_candidate fl exception d ≡ none
      → IsServable exception d
  unfolding check_inference_class
  check_candidate-IsServable exception d h =
      ground (arith, h, eq_iff d.inference_class "cloud", eq_iff d.inference_class "local")

  resolve_candidates-In :
      (exception : Option LocalInferenceException) (rc : Option RoutingConstraints)
      (ds : List (CandidateDoc fl)) (cs : List Candidate) (c : Candidate)
      → resolve_candidates fl exception rc ds ≡ inr cs
      → In c cs
      → (d : CandidateDoc fl) × In d ds × IsServable exception d × (candidate_of fl rc d ≡ c)
  unfolding resolve_candidates
  resolve_candidates-In exception rc [] cs c h there =
      absurd (empty_has_none cs (ground (arith, h)) there)
    where
      empty_has_none : (xs : List Candidate) → [] ≡ xs → In c xs → ⊥
      empty_has_none [] e k = k
      empty_has_none (x ∷ xs) e k = ground (arith, e)
  resolve_candidates-In exception rc (d ∷ ds) cs c h there =
      elim (Option-cases (check_candidate fl exception d)) [
        | inr (why, bad) ↦ absurd (ground (arith, bad, h))
        | inl fine ↦ elim (Sum-cases (resolve_candidates fl exception rc ds)) [
          | inl (why, bad) ↦ absurd (ground (arith, fine, bad, h))
          | inr (rest, good) ↦
              let is : candidate_of fl rc d ∷ rest ≡ cs = ground (arith, fine, good, h) in
              elim (subst (In c) (sym is) there) [
                | inl here ↦ (d, inl refl, check_candidate-IsServable exception d fine, here)
                | inr later ↦
                    let (d', inside, fits, made) =
                      resolve_candidates-In exception rc ds rest c good later in
                    (d', inr inside, fits, made)
              ]
        ]
      ]

  -- The profile that the bundle resolves a name to.
  abbrev pub IsProfile : List (ModelProfileDoc fl) → String → ModelProfileDoc fl → Type 0
  IsProfile ps name p = In p ps × (p.profile ≡ name)

  resolve_profile-IsProfile :
      (ps : List (ModelProfileDoc fl)) (name : String) (cs : List Candidate) (s : String)
      → resolve_profile fl ps name ≡ inr (cs, s)
      → (p : ModelProfileDoc fl) × IsProfile ps name p
        × (s ≡ sensitivity_of p.routing_constraints)
        × (resolve_candidates fl p.local_inference p.routing_constraints p.candidates ≡ inr cs)
  unfolding resolve_profile
  resolve_profile-IsProfile [] name cs s h = absurd (ground (arith, h))
  resolve_profile-IsProfile (p ∷ ps) name cs s h = elim (Bool-cases (p.profile == name)) [
    | inr other ↦
        let (q, (inside, named), is, made) =
          resolve_profile-IsProfile ps name cs s (ground (arith, other, h)) in
        (q, (inr inside, named), is, made)
    | inl this ↦
        elim (Sum-cases
          (resolve_candidates fl p.local_inference p.routing_constraints p.candidates)) [
            | inl (why, bad) ↦ absurd (ground (arith, this, bad, h))
            | inr (resolved, good) ↦ (
              p,
              (inl refl, ground (arith, this, eq_iff p.profile name)),
              ground (arith, this, good, h),
              ground (arith, this, good, h),
            )
          ]
  ]

  -- The attempt was at a candidate that the profile declares and that it may serve, and at one that
  -- it declares as inside the network where its data is restricted.
  abbrev pub IsDeclaredBy : List (ModelProfileDoc fl) → String → AttemptRecord → Type 0
  IsDeclaredBy ps name a =
      (p : ModelProfileDoc fl) × IsProfile ps name p
      × (d : CandidateDoc fl) × In d p.candidates
      × IsServable p.local_inference d
      × (a.provider ≡ d.provider)
      × (a.model ≡ d.model)
      × ((sensitivity_of p.routing_constraints ≢ "restricted")
          ⊎ IsInNetwork p.routing_constraints d.provider)

  -- Every attempt that Decide reports for the candidates of a resolved profile was at a candidate
  -- that the profile declares, a chat model that runs in the cloud or locally with a provider that
  -- the profile allows, and at one that it declares as inside the network where its data is
  -- restricted.
  pub decide-IsDeclaredBy :
      (sorting : Sorting) (g : Gateway) (context : Members) (ps : List (ModelProfileDoc fl))
      (name : String) (cs : List Candidate) (s : String)
      → resolve_profile fl ps name ≡ inr (cs, s)
      → All (IsDeclaredBy ps name) (attempts_of (decide sorting g cs context s))
  decide-IsDeclaredBy sorting g context ps name cs s h =
      let (p, profile, is, made) = resolve_profile-IsProfile ps name cs s h in
      All-map (IsOf cs s)
        (λ a (c, inside, eligible, who, what).
          let (d, declared, fits, same) =
            resolve_candidates-In p.local_inference p.routing_constraints p.candidates cs c made
              inside in
          (
            p,
            profile,
            d,
            declared,
            fits,
            who ∙ ap (λ x. x.provider) (sym same),
            what ∙ ap (λ x. x.model) (sym same),
            ground (
              arith,
              eligible,
              is,
              same,
              in_network_of-IsInNetwork p.routing_constraints d.provider,
            ),
          ))
        (attempts_of (decide sorting g cs context s)) (decide-IsOf sorting g cs context s)
