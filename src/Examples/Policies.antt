-- ===== src/Examples/Policies.antt =====
-- A bundle of two policies, and a Cedar whose policies are their effects: every policy of the set
-- applies to every request, and a `forbid` decides against any number of permits.
use aeon_agent_harness.Prelude.{
  String, Bool, true, false, none, some, List, [], ◌∷◌, ◌≡◌, refl, inr, ◌↔◌, In, any, map, length,
  if◌then◌else◌, ◌==◌, not, keep, string_comparable, nat_comparable,
}
use aeon_agent_harness.Prelude.Dict.{lookup, insert}
use aeon_agent_harness.Policy.{
  validate_declared_disposition, permits_execution, stricter, derived_disposition, Disposition,
  allow, require_approval, terminate_run, other,
}
use aeon_agent_harness.Policy.Engine.{
  Cedar, Engine, PolicyBundleItem, PolicyBundleDoc, strictest, load_engine, authorize, load_item,
  load_items, add_policies,
}
use aeon_agent_harness.Policy.Declared.{AllDeclareAllow}
use aeon_agent_harness.Policy.Bundle.{authorize-allowed_iff}
use aeon_agent_harness.Policy.TenantSet.{
  DirEntry, ByTenant, Loads, load_set_from_dir, engine_for, engine_for-load_set_from_dir,
  load_entries, load_engine_file, tenant_of_file,
}

abbrev ids_of : List (String × String) → List String
ids_of ps = map (λ p. p.0) ps

abbrev forbids : String × String → Bool
forbids (id, effect) = effect == "forbid"

abbrev verdict : List (String × String) → Bool × List String
verdict ps =
    if any forbids ps then (false, ids_of (keep forbids ps)) else (not (length ps == 0), ids_of ps)

abbrev pub effects : Cedar
effects = record {
  Policy = String;
  parse = λ id source. if source == "" then none else some (source ∷ []);
  decide = λ ps request. verdict ps;
}

abbrev search_item : PolicyBundleItem
search_item = record {
  id = "search";
  effect = "permit";
  cedar_source = "permit";
  disposition = require_approval;
}

abbrev read_item : PolicyBundleItem
read_item = record {
  id = "read";
  effect = "permit";
  cedar_source = "permit";
  disposition = other "";
}

abbrev pub bundle : PolicyBundleDoc
bundle = record {
  api_version = "v1";
  kind = "PolicyBundle";
  cedar_version = "4";
  policies = search_item ∷ read_item ∷ [];
}

abbrev pub engine : Engine effects
engine = record {
  policy_set = ("search", "permit") ∷ ("read", "permit") ∷ [];
  dispositions = ("search", require_approval) ∷ [];
}

bundle_loads : load_engine effects bundle ≡ inr engine
unfolding load_engine load_items load_item add_policies validate_declared_disposition lookup insert
bundle_loads = refl

-- What a call of `search` by agent `a` may do.
abbrev search_allowed : Bool
search_allowed = (authorize effects engine "Agent" "a" "Tool" "search" []).allowed

authorize-allowed_iff_example :
    (search_allowed ≡ true)
    ↔ ((true ≡ true) × AllDeclareAllow effects bundle.policies ("search" ∷ "read" ∷ []))
authorize-allowed_iff_example =
    authorize-allowed_iff effects bundle engine "Agent" "a" "Tool" "search" [] bundle_loads

search_not_allowed : search_allowed ≡ false
unfolding authorize strictest lookup permits_execution stricter derived_disposition
search_not_allowed = refl

abbrev two_declared : List (String × Disposition)
two_declared = ("a", require_approval) ∷ ("b", terminate_run) ∷ []

abbrev strictest_of_two : Disposition × Bool
strictest_of_two = strictest two_declared ("b" ∷ "a" ∷ []) (allow, false)

strictest_is_terminate : strictest_of_two ≡ (terminate_run, true)
unfolding strictest lookup stricter
strictest_is_terminate = refl

abbrev forged : List (String × String)
forged = ("name", "fs.read") ∷ ("q", "x") ∷ []

abbrev own_name : List (String × String)
own_name = ("name", "shell") ∷ []

abbrev acme_file : DirEntry
acme_file = record { name = "acme.yaml"; is_dir = false; doc = some bundle }

abbrev loaded_set : ByTenant effects
loaded_set = ("acme", engine) ∷ []

acme_loads : load_set_from_dir effects (some (acme_file ∷ [])) ≡ inr loaded_set
unfolding load_set_from_dir load_entries load_engine_file load_engine load_items load_item
    add_policies validate_declared_disposition lookup insert tenant_of_file
acme_loads = refl

engine_for-load_set_from_dir_example :
    (entry : DirEntry) × In entry (acme_file ∷ []) × Loads effects entry "acme" engine
engine_for-load_set_from_dir_example =
    engine_for-load_set_from_dir effects (acme_file ∷ []) loaded_set "acme" engine acme_loads
      (unfold engine_for lookup in refl)
