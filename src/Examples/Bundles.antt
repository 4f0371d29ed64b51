-- ===== src/Examples/Bundles.antt =====
-- A bundle with one service, as a document and as a directory of one file.
use mathlib.Core.Logic.{◌↔◌}
use aeon_agent_harness.Prelude.{
  String, false, some, List, [], ◌∷◌, ◌≡◌, ◌≢◌, refl, inr, arith, In, if◌then◌else◌, ◌==◌,
  string_comparable, eq_iff,
}
use aeon_agent_harness.Prelude.Text.{trim_space}
use aeon_agent_harness.Prelude.Dict.{lookup, insert}
use aeon_agent_harness.Policy.TenantSet.{rest_of_name, tenant_of_file}
use aeon_agent_harness.Auth.{Caller, service, is_tenant_name}
use aeon_agent_harness.Auth.Bundles.{
  CallerBundleDoc, Authenticator, other_tenants, token_hash, is_token_hash, normalised,
  check_caller, load_callers, load_bundle, authenticate,
}
use aeon_agent_harness.Auth.Callers.{IsEntitled, Declares, authenticate-load_bundle}
use aeon_agent_harness.Auth.Directory.{
  CallersEntry, add_callers, add_doc, add_file, add_files, merged_doc, load_dir,
}
use aeon_agent_harness.Auth.Boundary.{IsDeclaredIn, authenticate-IsEntitled, authenticate-load_dir}

abbrev digest : String
digest = "00112233445566778899aabbccddeeff00112233445566778899aabbccddeeff"

abbrev hash : String → String
hash token = if token == "t0k3n" then digest else ""

abbrev worker : Caller
worker = record {
  id = "worker";
  kind = service;
  token_sha256 = digest;
  may_act_as = [];
  may_approve = false;
  tenant = "acme";
  may_act_for_tenants = " beta" ∷ "acme" ∷ [];
}

abbrev kept : Caller
kept = normalised worker ("beta" ∷ [])

abbrev bundle : CallerBundleDoc
bundle = merged_doc (worker ∷ [])

abbrev table : Authenticator
table = (digest, kept) ∷ []

loads : load_bundle bundle ≡ inr table
unfolding load_bundle load_callers check_caller other_tenants token_hash is_token_hash trim_space
    is_tenant_name lookup insert
loads = refl

abbrev token : String
token = "t0k3n"

named : token ≢ ""
named e = ground (arith, e, eq_iff "t0k3n" "")

authenticates : authenticate hash table "t0k3n" ≡ some kept
unfolding authenticate lookup token_hash trim_space
authenticates = refl

authenticate-load_bundle_example :
    (authenticate hash table "t0k3n" ≡ some kept) ↔ Declares (worker ∷ []) (hash "t0k3n") kept
authenticate-load_bundle_example =
    authenticate-load_bundle hash bundle table "t0k3n" kept loads named

authenticate-IsEntitled_example : IsEntitled kept
authenticate-IsEntitled_example =
    authenticate-IsEntitled hash bundle table "t0k3n" kept loads authenticates

abbrev entries : List CallersEntry
entries = record { name = "acme.yaml"; is_dir = false; doc = some bundle } ∷ []

loads_dir : load_dir (some entries) ≡ inr table
unfolding load_dir add_files add_file add_doc add_callers tenant_of_file rest_of_name load_bundle
    load_callers check_caller other_tenants token_hash is_token_hash trim_space is_tenant_name
    lookup insert
loads_dir = refl

authenticate-load_dir_example :
    (entry : CallersEntry) × In entry entries
    × (tenant_of_file entry.name ≡ some kept.tenant)
    × (c : Caller) × IsDeclaredIn entry c
    × (token_hash c ≡ hash "t0k3n")
    × (kept.id ≡ c.id)
authenticate-load_dir_example =
    authenticate-load_dir hash entries table "t0k3n" kept loads_dir named authenticates
