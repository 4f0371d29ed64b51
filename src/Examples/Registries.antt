-- ===== src/Examples/Registries.antt =====
-- A registry with one version, which is promoted, quarantined and retired; and a lease on a secret.
use aeon_agent_harness.Prelude.{
  ℕ, String, true, false, some, List, [], ◌∷◌, ◌≡◌, refl, inl, arith, any, string_comparable,
  eq_iff,
}
use aeon_agent_harness.Prelude.Int.{pos}
use aeon_agent_harness.Json.{Members, no_members}
use aeon_agent_harness.Registry.{
  AgentRecord, RegistryFaults, ReleaseGateDecision, find_agent, update_agent, is_agent, get_agent,
  valid_transition, lifecycle_candidate, lifecycle_released,
}
use aeon_agent_harness.Registry.Methods.{
  draft_row, transition_lifecycle, refuse_transition, write_agent, with_lifecycle,
}
use aeon_agent_harness.Registry.Lifecycle.{Call, transitions, run_call, run_calls, gate_allows}
use aeon_agent_harness.Registry.History.{
  QuarantineFits, Follows, find_agent-run_calls, gate_allows-run_calls,
}
use aeon_agent_harness.Secrets.{Broker, issue_for_owner}

abbrev pub no_faults : RegistryFaults
no_faults = record { on_read = false; on_write = false; on_read_back = false }

abbrev manifest : Members
manifest = no_members

abbrev pub draft : AgentRecord
draft = draft_row "acme" "a" "1" "ana" manifest 5

abbrev candidate : AgentRecord
candidate = with_lifecycle lifecycle_candidate 6 draft

abbrev pub released : AgentRecord
released = with_lifecycle lifecycle_released 7 draft

abbrev passing : ReleaseGateDecision
passing = record { allowed = true; reason = "" }

abbrev promote : String → ℕ → Call
promote target now = transitions no_faults now "acme" "a" "1" target passing

abbrev promotions : List Call
promotions = promote "Candidate" 6 ∷ promote "Released" 7 ∷ []

promoted : find_agent "acme" "a" "1" (run_calls promotions (draft ∷ [])) ≡ some released
unfolding run_calls run_call transition_lifecycle get_agent find_agent is_agent refuse_transition
    valid_transition write_agent update_agent
promoted = refl

draft_is_there : find_agent "acme" "a" "1" (draft ∷ []) ≡ some draft
unfolding find_agent is_agent
draft_is_there = refl

find_agent-run_calls_example :
    (b : AgentRecord) × (find_agent "acme" "a" "1" (run_calls promotions (draft ∷ [])) ≡ some b)
    × Follows "Draft" b.lifecycle
    × QuarantineFits b
find_agent-run_calls_example =
    find_agent-run_calls "acme" "a" "1" promotions (draft ∷ []) draft draft_is_there (inl refl)

gate_allows-run_calls_example : any gate_allows promotions ≡ true
gate_allows-run_calls_example =
    gate_allows-run_calls "acme" "a" "1" promotions (draft ∷ []) draft released draft_is_there
      (inl refl) (λ e. ground (arith, e, eq_iff "Draft" lifecycle_released)) promoted refl

abbrev pub vault : Broker
vault = record { secrets = ("db", "s3cret") ∷ []; leases = [] }

abbrev issued : Broker
issued = (issue_for_owner (some "r1") 100 "db" (pos 50) "a@1" vault).0
