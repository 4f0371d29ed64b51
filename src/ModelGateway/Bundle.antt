-- ===== src/ModelGateway/Bundle.antt =====
-- go/internal/modelgateway/bundle.go: the profiles of a model policy bundle.
use aeon_agent_harness.Prelude.{
  String, Bool, false, ◌||◌, not, Option, none, some, List, [], ◌∷◌, ◌++◌, ◌⊎◌, inl, inr, any,
  if◌then◌else◌, ◌==◌, string_comparable,
}
use aeon_agent_harness.Prelude.Int.{ℤ}
use aeon_agent_harness.Prelude.Dict.{lookup, insert}
use aeon_agent_harness.Finops.{Dollars}
use aeon_agent_harness.Finops.Pricing.{Rate}
use aeon_agent_harness.ModelGateway.{Candidate}

pub record LocalInferenceException : Type 0 where
  pub environment : String
  pub allowed_providers : List String

pub record RoutingConstraints : Type 0 where
  pub data_sensitivity : String
  pub in_network_providers : List String

pub data ResolveError : Type 0 where
  profile_not_found : ResolveError
  modality_mismatch inference_undeclared local_provider_denied : ResolveError

-- chatServableModalities
abbrev pub is_chat_servable : String → Bool
is_chat_servable modality = modality == "text" || modality == "vision"

abbrev pub is_allowed_locally : String → Option LocalInferenceException → Bool
is_allowed_locally provider none = false
is_allowed_locally provider (some e) =
    if e.environment == "" then false else any (λ p. p == provider) e.allowed_providers

abbrev pub in_network_of : Option RoutingConstraints → String → Bool
in_network_of none provider = false
in_network_of (some rc) provider = any (λ p. p == provider) rc.in_network_providers

abbrev pub sensitivity_of : Option RoutingConstraints → String
sensitivity_of none = ""
sensitivity_of (some rc) = rc.data_sensitivity

abbrev with_sensitivity :
    Option RoutingConstraints
    → ResolveError ⊎ List Candidate
    → ResolveError ⊎ (List Candidate × String)
with_sensitivity rc (inl why) = inl why
with_sensitivity rc (inr candidates) = inr (candidates, sensitivity_of rc)

pub record ModalityContradiction : Type 0 where
  pub profile : String
  pub provider : String
  pub model : String
  pub declared : String
  -- Empty where the catalog does not list the model.
  pub actual : String

-- The catalog as a map from models to modalities, the later entry of a model counting.
unfoldable pub catalog_map :
    List (String × String) → List (String × String) → List (String × String)
catalog_map [] actual = actual
catalog_map ((model, modality) ∷ catalog) actual =
    catalog_map catalog (insert model modality actual)

module _ (fl : Dollars) where
  pub record CandidateDoc : Type 0 where
    pub provider : String
    pub model : String
    pub modality : String
    pub inference_class : String
    pub priority : ℤ
    pub cost_model : String
    pub cost_per_million_input_tokens : fl.Float
    pub cost_per_million_output_tokens : fl.Float

  pub record ModelProfileDoc : Type 0 where
    pub profile : String
    pub candidates : List CandidateDoc
    pub local_inference : Option LocalInferenceException
    pub routing_constraints : Option RoutingConstraints

  pub record ModelPolicyBundleDoc : Type 0 where
    pub api_version : String
    pub kind : String
    pub profiles : List ModelProfileDoc

  unfoldable pub check_inference_class :
      CandidateDoc → Option LocalInferenceException → Option ResolveError
  check_inference_class c exception =
      if c.inference_class == "cloud"
      then none
      else if c.inference_class == "local"
      then (if is_allowed_locally c.provider exception then none else some local_provider_denied)
      else some inference_undeclared

  abbrev pub candidate_of : Option RoutingConstraints → CandidateDoc → Candidate
  candidate_of rc c = record {
    provider = c.provider;
    model = c.model;
    priority = c.priority;
    in_network = in_network_of rc c.provider;
  }

  -- What refuses a candidate of the profile.
  abbrev pub check_candidate : Option LocalInferenceException → CandidateDoc → Option ResolveError
  check_candidate exception c = elim (check_inference_class c exception) [
    | some why ↦ some why
    | none ↦ if not (is_chat_servable c.modality) then some modality_mismatch else none
  ]

  unfoldable pub resolve_candidates :
      Option LocalInferenceException
      → Option RoutingConstraints
      → List CandidateDoc
      → ResolveError ⊎ List Candidate
  resolve_candidates exception rc [] = inr []
  resolve_candidates exception rc (c ∷ cs) =
      let rest = resolve_candidates exception rc cs in
      elim (check_candidate exception c) [
        | some why ↦ inl why
        | none ↦ elim rest [ inl why ↦ inl why | inr resolved ↦ inr (candidate_of rc c ∷ resolved) ]
      ]

  -- ResolveProfile, of the bundle's profiles.
  unfoldable pub resolve_profile :
      List ModelProfileDoc → String → ResolveError ⊎ (List Candidate × String)
  resolve_profile [] profile = inl profile_not_found
  resolve_profile (p ∷ ps) profile =
      let others = resolve_profile ps profile in
      if not (p.profile == profile)
      then others
      else with_sensitivity p.routing_constraints
          (resolve_candidates p.local_inference p.routing_constraints p.candidates)

  abbrev contradiction : String → CandidateDoc → Option String → List ModalityContradiction
  contradiction profile c none =
      record {
        profile = profile;
        provider = c.provider;
        model = c.model;
        declared = c.modality;
        actual = "";
      }
      ∷ []
  contradiction profile c (some got) =
      if got == c.modality
      then []
      else record {
        profile = profile;
        provider = c.provider;
        model = c.model;
        declared = c.modality;
        actual = got;
      }
        ∷ []

  abbrev verify_candidates :
      String → String → List (String × String) → List CandidateDoc → List ModalityContradiction
  verify_candidates profile provider actual [] = []
  verify_candidates profile provider actual (c ∷ cs) =
      let rest = verify_candidates profile provider actual cs in
      if not (c.provider == provider)
      then rest
      else contradiction profile c (lookup c.model actual) ++ rest

  abbrev verify_profiles :
      String → List (String × String) → List ModelProfileDoc → List ModalityContradiction
  verify_profiles provider actual [] = []
  verify_profiles provider actual (p ∷ ps) =
      verify_candidates p.profile provider actual p.candidates ++ verify_profiles provider actual ps

  unfoldable pub verify_modalities_against_catalog :
      List ModelProfileDoc → String → List (String × String) → List ModalityContradiction
  unfolding catalog_map
  verify_modalities_against_catalog profiles provider catalog =
      verify_profiles provider (catalog_map catalog []) profiles

  abbrev rate_of_candidate : CandidateDoc → List (Rate fl)
  rate_of_candidate c =
      if c.cost_model == ""
      then []
      else record {
        provider = c.provider;
        model = c.model;
        cost_model = c.cost_model;
        input_per_million_usd = c.cost_per_million_input_tokens;
        output_per_million_usd = c.cost_per_million_output_tokens;
      }
        ∷ []

  abbrev rates_of_candidates : List CandidateDoc → List (Rate fl)
  rates_of_candidates [] = []
  rates_of_candidates (c ∷ cs) = rate_of_candidate c ++ rates_of_candidates cs

  unfoldable pub pricing_rates : List ModelProfileDoc → List (Rate fl)
  pricing_rates [] = []
  pricing_rates (p ∷ ps) = rates_of_candidates p.candidates ++ pricing_rates ps
