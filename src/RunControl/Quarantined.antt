-- ===== src/RunControl/Quarantined.antt =====
-- A version that was quarantined starts no run.
use mathlib.Core.Path.{subst}
use aeon_agent_harness.Prelude.{
  ℕ, String, true, false, some, List, inl, inr, ◌≡◌, ◌≢◌, refl, arith, eq_iff, ◌==◌,
  string_comparable, nat_comparable, Option-cases, Bool-cases, ap, ◌∙◌,
}
use aeon_agent_harness.Json.{Members}
use aeon_agent_harness.Auth.{Caller}
use aeon_agent_harness.Registry.{AgentRecord, RegistryFaults, find_agent, get_agent, read_back}
use aeon_agent_harness.Registry.Methods.{no_gaps, quarantine, write_agent, with_quarantine}
use aeon_agent_harness.Registry.Rows.{same_agent, find_agent-update_agent}
use aeon_agent_harness.RunControl.{Temporal}
use aeon_agent_harness.RunControl.Handlers.{
  StartRunRequest, Plane, at_first, quarantined_agent, registry_for_caller, check_not_quarantined,
  start_checked, start_run,
}

same_agent_refl :
    (tenant name version : String) → same_agent tenant name version tenant name version ≡ true
unfolding same_agent
same_agent_refl tenant name version =
    ground (arith, eq_iff tenant tenant, eq_iff name name, eq_iff version version)

ref_given : (ref name version : String) → at_first ref ≡ some (name, version) → (ref == "") ≡ false
ref_given ref name version h = elim (Bool-cases (ref == "")) [
  | inr given ↦ given
  | inl empty ↦
      let is : ref ≡ "" = ground (arith, empty, eq_iff ref "") in
      let bad : at_first "" ≡ some (name, version) =
        subst (λ r. at_first r ≡ some (name, version)) is h in
      absurd (ground (arith, bad))
]

quarantine-get_agent :
    (f : RegistryFaults) (now : ℕ) (tenant name version reason : String) (rows : List AgentRecord)
    (a : AgentRecord)
    → (quarantine f no_gaps now tenant name version reason rows).1 ≡ inr a
    → (get_agent false tenant name version
          (quarantine f no_gaps now tenant name version reason rows).0
        ≡ inr a)
      × (a.quarantined ≡ true)
      × (a.quarantine_reason ≡ some reason)
unfolding quarantine write_agent read_back get_agent
quarantine-get_agent f now tenant name version reason rows a h =
    elim (Option-cases (find_agent tenant name version rows)) [
      | inl missing ↦ absurd (ground (arith, missing, h))
      | inr (current, found) ↦
          let after =
            find_agent-update_agent tenant name version (with_quarantine reason now) tenant name
              version rows (λ x. (refl, refl, refl)) in
          let itself = same_agent_refl tenant name version in
          (
            ground (arith, found, after, itself, h),
            ground (arith, found, after, itself, h),
            ground (arith, found, after, itself, h),
          )
    ]

module _ (tp : Temporal) where
  -- Once the quarantine of a version is answered, with no other call of the registry between its
  -- statements, a complete request to start that names the version, cut at the first @ of its
  -- reference, is refused with the quarantine's reason and changes nothing: for a caller of the
  -- version's tenant, where the registry is configured and can be read.
  pub start_run-quarantine :
      (f : RegistryFaults) (now : ℕ) (name version reason : String) (rows : List AgentRecord)
      (a : AgentRecord) (task_queue : String) (caller : Caller) (body : StartRunRequest)
      (graph : Members) (p : Plane tp)
      → (quarantine f no_gaps now caller.tenant name version reason rows).1 ≡ inr a
      → p.agents ≡ (quarantine f no_gaps now caller.tenant name version reason rows).0
      → at_first body.agent_manifest_ref ≡ some (name, version)
      → caller.tenant ≢ ""
      → body.run_id ≢ ""
      → body.graph ≡ some graph
      → start_run tp task_queue true false (some caller) (some body) p
        ≡ (p, quarantined_agent body.agent_manifest_ref (some reason))
  unfolding start_run start_checked check_not_quarantined registry_for_caller
  start_run-quarantine f now name version reason rows a queue caller body graph p h is ref own run
        g =
      let (found, quarantined, why) =
        quarantine-get_agent f now caller.tenant name version reason rows a h in
      let here : get_agent false caller.tenant name version p.agents ≡ inr a =
        ap (get_agent false caller.tenant name version) is ∙ found in
      ground (
        arith,
        here,
        quarantined,
        why,
        ref,
        g,
        own,
        run,
        eq_iff caller.tenant "",
        eq_iff body.run_id "",
        eq_iff body.agent_manifest_ref "",
        ref_given body.agent_manifest_ref name version ref,
      )
