-- ===== src/Examples/KillSwitches.antt =====
-- A bad run too many, and the quarantine lifted.
use aeon_agent_harness.Prelude.{
  String, true, false, some, [], ◌∷◌, ◌≡◌, refl, string_comparable, pair_comparable,
}
use aeon_agent_harness.Prelude.Dict.{lookup, insert}
use aeon_agent_harness.Auth.{Caller, human}
use aeon_agent_harness.CircuitBreaker.{
  Reason, is_quarantined, record_outcome, window_of, judge, slide,
}
use aeon_agent_harness.Registry.{
  AgentRecord, find_agent, update_agent, is_agent, get_agent, read_back,
}
use aeon_agent_harness.Registry.Methods.{
  no_gaps, quarantine, unquarantine, write_agent, with_quarantine, without_quarantine,
}
use aeon_agent_harness.Secrets
use aeon_agent_harness.Secrets.{Lease, Broker}
use aeon_agent_harness.KillSwitch.{
  Switches, tripped, cleared, record_outcome_route, unquarantine_route, apply_quarantine,
  after_verdict,
}
use aeon_agent_harness.KillSwitch.Effects.{
  IsCutOff, record_outcome_route-IsCutOff, unquarantine_route-clears,
}
use aeon_agent_harness.Examples.Breakers.{hundredths, bad, once_bad}
use aeon_agent_harness.Examples.Registries.{no_faults, released}

abbrev caller : Caller
caller = record {
  id = "ana";
  kind = human;
  token_sha256 = "";
  may_act_as = [];
  may_approve = false;
  tenant = "acme";
  may_act_for_tenants = [];
}

abbrev broker : Secrets.Broker
broker = record {
  secrets = ("db", "s3cret") ∷ [];
  leases = ("r1", record { secret_name = "db"; expires_at = 150; owner = "a@1" }) ∷ [];
}

abbrev switches : Switches hundredths
switches = record { agents = released ∷ []; breaker = once_bad; secrets = some broker }

abbrev text_of : Reason hundredths → String
text_of why = "too many failures"

abbrev shut_off : AgentRecord
shut_off = with_quarantine "too many failures" 9 released

abbrev after : Switches hundredths
after =
    (record_outcome_route hundredths text_of no_faults no_gaps 9 (some caller) "a" "1" (some bad)
      switches).0

trips :
    (record_outcome_route hundredths text_of no_faults no_gaps 9
      (some caller)
      "a"
      "1"
      (some bad)
      switches).1
    ≡ tripped "too many failures" shut_off
unfolding record_outcome_route after_verdict apply_quarantine record_outcome is_quarantined judge
    slide window_of lookup insert quarantine get_agent find_agent is_agent write_agent update_agent
    read_back
trips = refl

record_outcome_route-IsCutOff_example :
    IsCutOff hundredths text_of no_faults (λ rows. rows) 9 "acme" "a" "1" shut_off after
    × (is_quarantined hundredths after.breaker ("a", "1") ≡ true)
record_outcome_route-IsCutOff_example =
    record_outcome_route-IsCutOff hundredths text_of no_faults (λ rows. rows) 9 caller "a" "1"
      "too many failures" bad switches shut_off trips

abbrev lifted : Switches hundredths
lifted = (unquarantine_route hundredths text_of no_faults no_gaps 12 (some caller) "a" "1" after).0

abbrev free_again : AgentRecord
free_again = without_quarantine 12 shut_off

clears :
    (unquarantine_route hundredths text_of no_faults no_gaps 12 (some caller) "a" "1" after).1
    ≡ cleared free_again
unfolding unquarantine_route unquarantine record_outcome_route after_verdict apply_quarantine
    record_outcome is_quarantined judge slide window_of lookup insert quarantine get_agent
    find_agent is_agent write_agent update_agent read_back
clears = refl

unquarantine_route-clears_example :
    (find_agent "acme" "a" "1" lifted.agents ≡ some free_again)
    × (free_again.quarantined ≡ false)
    × (is_quarantined hundredths lifted.breaker ("a", "1") ≡ false)
    × (window_of hundredths lifted.breaker ("a", "1") ≡ [])
unquarantine_route-clears_example =
    unquarantine_route-clears hundredths text_of no_faults (λ rows. rows) 12 caller "a" "1" after
      free_again clears
