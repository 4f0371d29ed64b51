-- ===== src/Secrets/Leases.antt =====
-- What a lease resolves to.
use aeon_agent_harness.Prelude.{
  String, false, not, List, [], ◌∷◌, ◌≡◌, ◌≢◌, arith, keep, All, string_comparable, eq_iff,
}
use aeon_agent_harness.Secrets.{Lease, Broker, revoke_all_for_owner, is_owned}

-- No lease is the owner's.
abbrev pub NoLeaseOf : String → Broker → Type 0
NoLeaseOf owner b = All (λ entry. is_owned owner entry ≡ false) b.leases

All-keep_others :
    (owner : String) (leases : List (String × Lease))
    → All
        (λ entry. is_owned owner entry ≡ false)
        (keep (λ entry. not (is_owned owner entry)) leases)
All-keep_others owner [] = tt
All-keep_others owner (entry ∷ leases) = ground (arith, All-keep_others owner leases)

-- After the leases of an owner are revoked none is left.
pub NoLeaseOf-revoke_all_for_owner :
    (b : Broker) (owner : String) → owner ≢ "" → NoLeaseOf owner (revoke_all_for_owner owner b).0
unfolding revoke_all_for_owner
NoLeaseOf-revoke_all_for_owner b owner named =
    ground (arith, eq_iff owner "", named, All-keep_others owner b.leases)
