-- ===== src/Registry/Lifecycle.antt =====
-- The life of one version under any sequence of calls.
use aeon_agent_harness.Prelude.{
  ℕ, String, Bool, true, false, none, some, List, [], ◌∷◌, ◌≡◌, ◌≢◌, refl, ◌⊎◌, inl, inr, arith,
  string_comparable, eq_iff, Option-cases, Sum-cases,
}
use aeon_agent_harness.Json.{Members}
use aeon_agent_harness.Registry.{
  AgentRecord, RegistryFaults, ReleaseGateDecision, find_agent, get_agent, manifest_name_version,
  valid_transition, lifecycle_candidate, lifecycle_released, lifecycle_retired,
}
use aeon_agent_harness.Registry.Methods.{
  no_gaps, create, transition_lifecycle, quarantine, unquarantine, write_agent, refuse_transition,
  with_lifecycle, with_quarantine, without_quarantine, draft_row,
}
use aeon_agent_harness.Registry.Rows.{
  KeepsKey, same_agent, find_agent-update_agent, find_agent-append,
}

-- A call of the registry of one tenant, with what fails during it.
pub data Call : Type 0 where
  creates : RegistryFaults → ℕ → String → Members → String → Call
  transitions : RegistryFaults → ℕ → String → String → String → String → ReleaseGateDecision → Call
  quarantines : RegistryFaults → ℕ → String → String → String → String → Call
  unquarantines : RegistryFaults → ℕ → String → String → String → Call

-- The table after a call that no other call interleaves with.
unfoldable pub run_call : Call → List AgentRecord → List AgentRecord
run_call (creates f now tenant manifest owner) rows = (create f now tenant manifest owner rows).0
run_call (transitions f now tenant name version target gate) rows =
    (transition_lifecycle f no_gaps now tenant name version target gate rows).0
run_call (quarantines f now tenant name version reason) rows =
    (quarantine f no_gaps now tenant name version reason rows).0
run_call (unquarantines f now tenant name version) rows =
    (unquarantine f no_gaps now tenant name version rows).0

unfoldable pub run_calls : List Call → List AgentRecord → List AgentRecord
run_calls [] rows = rows
run_calls (c ∷ calls) rows = run_calls calls (run_call c rows)

-- A passing release gate decision came with the call.
abbrev pub gate_allows : Call → Bool
gate_allows (transitions _ _ _ _ _ _ gate) = gate.allowed
gate_allows _ = false

-- One step of a lifecycle, or none; into Released only with the gate's decision.
abbrev pub Moves : Bool → AgentRecord → AgentRecord → Type 0
Moves allowed a b =
    (b.lifecycle ≡ a.lifecycle)
    ⊎ ((valid_transition a.lifecycle ≡ some b.lifecycle)
        × ((b.lifecycle ≢ lifecycle_released) ⊎ (allowed ≡ true)))

module _ (t n v : String) where
  write_agent-find :
      (f : RegistryFaults) (set : AgentRecord → AgentRecord) (tenant name version : String)
      (rows : List AgentRecord) (a : AgentRecord)
      → KeepsKey set
      → find_agent t n v rows ≡ some a
      → (find_agent t n v (write_agent f no_gaps set tenant name version rows).0 ≡ some a)
        ⊎ ((find_agent t n v (write_agent f no_gaps set tenant name version rows).0 ≡ some (set a))
            × (same_agent tenant name version t n v ≡ true))
  unfolding write_agent
  write_agent-find f set tenant name version rows a same there =
      ground (arith, there, find_agent-update_agent t n v set tenant name version rows same)

  pub create-find :
      (f : RegistryFaults) (now : ℕ) (tenant : String) (manifest : Members) (owner : String)
      (rows : List AgentRecord) (a : AgentRecord)
      → find_agent t n v rows ≡ some a
      → find_agent t n v (create f now tenant manifest owner rows).0 ≡ some a
  unfolding create
  create-find f now tenant manifest owner rows a there =
      elim (Sum-cases (manifest_name_version manifest)) [
        | inl (why, bad) ↦ ground (arith, bad, there)
        | inr ((name, version), good) ↦ elim (Option-cases (find_agent tenant name version rows)) [
          | inr (old, taken) ↦ ground (arith, good, taken, there)
          | inl free ↦ ground (
            arith,
            good,
            free,
            there,
            find_agent-append t n v rows (draft_row tenant name version owner manifest now),
          )
        ]
      ]

  same_agent-find :
      (tenant name version : String) (rows : List AgentRecord)
      → same_agent tenant name version t n v ≡ true
      → find_agent tenant name version rows ≡ find_agent t n v rows
  unfolding same_agent
  same_agent-find tenant name version rows same =
      let p : tenant ≡ t = ground (arith, same, eq_iff tenant t) in
      let q : name ≡ n = ground (arith, same, eq_iff name n) in
      let r : version ≡ v = ground (arith, same, eq_iff version v) in rw (p, q, r) refl

pub refuse_transition-none :
    (current target : String) (gate : ReleaseGateDecision)
    → refuse_transition current target gate ≡ none
    → (valid_transition current ≡ some target)
      × ((target ≢ lifecycle_released) ⊎ (gate.allowed ≡ true))
unfolding refuse_transition valid_transition
refuse_transition-none current target gate fine = ground (
  arith,
  fine,
  eq_iff target lifecycle_released,
  eq_iff lifecycle_candidate target,
  eq_iff lifecycle_released target,
  eq_iff lifecycle_retired target,
  eq_iff lifecycle_retired lifecycle_released,
  eq_iff lifecycle_candidate lifecycle_released,
)

module _ (t n v : String) where
  pub transition-Moves :
      (f : RegistryFaults) (now : ℕ) (tenant name version target : String)
      (gate : ReleaseGateDecision) (rows : List AgentRecord) (a : AgentRecord)
      → find_agent t n v rows ≡ some a
      → (find_agent t n v
            (transition_lifecycle f no_gaps now tenant name version target gate rows).0
          ≡ some a)
        ⊎ ((find_agent t n v
                (transition_lifecycle f no_gaps now tenant name version target gate rows).0
              ≡ some (with_lifecycle target now a))
            × (refuse_transition a.lifecycle target gate ≡ none))
  unfolding transition_lifecycle get_agent
  transition-Moves f now tenant name version target gate rows a there =
      elim (Option-cases (find_agent tenant name version rows)) [
        | inl missing ↦ inl (ground (arith, missing, there))
        | inr (current, found) ↦
            elim (Option-cases (refuse_transition current.lifecycle target gate)) [
              | inr (why, refused) ↦ inl (ground (arith, found, refused, there))
              | inl fine ↦ ground (
                arith,
                found,
                fine,
                there,
                same_agent-find t n v tenant name version rows,
                write_agent-find t n v f (with_lifecycle target now) tenant name version rows a
                    (λ x. (refl, refl, refl)) there,
              )
            ]
      ]

  pub quarantine-find :
      (f : RegistryFaults) (now : ℕ) (tenant name version reason : String) (rows : List AgentRecord)
      (a : AgentRecord)
      → find_agent t n v rows ≡ some a
      → (find_agent t n v (quarantine f no_gaps now tenant name version reason rows).0 ≡ some a)
        ⊎ ((find_agent t n v (quarantine f no_gaps now tenant name version reason rows).0
              ≡ some (with_quarantine reason now a))
            × (a.lifecycle ≡ lifecycle_released))
  unfolding quarantine get_agent
  quarantine-find f now tenant name version reason rows a there =
      elim (Option-cases (find_agent tenant name version rows)) [
        | inl missing ↦ inl (ground (arith, missing, there))
        | inr (current, found) ↦ ground (
          arith,
          found,
          there,
          eq_iff current.lifecycle lifecycle_released,
          same_agent-find t n v tenant name version rows,
          write_agent-find t n v f (with_quarantine reason now) tenant name version rows a
              (λ x. (refl, refl, refl)) there,
        )
      ]

  pub unquarantine-find :
      (f : RegistryFaults) (now : ℕ) (tenant name version : String) (rows : List AgentRecord)
      (a : AgentRecord)
      → find_agent t n v rows ≡ some a
      → (find_agent t n v (unquarantine f no_gaps now tenant name version rows).0 ≡ some a)
        ⊎ (find_agent t n v (unquarantine f no_gaps now tenant name version rows).0
            ≡ some (without_quarantine now a))
  unfolding unquarantine get_agent
  unquarantine-find f now tenant name version rows a there =
      elim (Option-cases (find_agent tenant name version rows)) [
        | inl missing ↦ inl (ground (arith, missing, there))
        | inr (current, found) ↦ ground (
          arith,
          found,
          there,
          write_agent-find t n v f (without_quarantine now) tenant name version rows a
              (λ x. (refl, refl, refl)) there,
        )
      ]
