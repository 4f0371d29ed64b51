-- ===== src/Secrets.antt =====
-- go/internal/secrets/broker.go: short-lived leases on secrets. The mutex makes the calls follow one
-- another; a time is in nanoseconds.
pub mod Leases
use aeon_agent_harness.Prelude.{
  ℕ, ◌+◌, ◌*◌, String, Bool, true, false, not, Option, none, some, List, [], ◌∷◌, ◌⊎◌, inl, inr,
  ltb, keep, count_if, if◌then◌else◌, ◌==◌, string_comparable,
}
use aeon_agent_harness.Prelude.Dict.{lookup, insert, remove}
use aeon_agent_harness.Prelude.Int.{ℤ, pos, pos_part, ltb_ℤ}

-- 5 * time.Minute
abbrev pub default_lease_ttl : ℕ
default_lease_ttl = 300000000000

pub record Lease : Type 0 where
  pub secret_name : String
  pub expires_at : ℕ
  pub owner : String

pub record Broker : Type 0 where
  pub secrets : List (String × String)
  pub leases : List (String × Lease)

pub data SecretError : Type 0 where
  unknown_secret no_randomness unknown_lease lease_expired secret_gone : SecretError

unfoldable pub new_broker : List (String × String) → Broker
new_broker values = record { secrets = values; leases = [] }

abbrev pub effective_ttl : ℤ → ℕ
effective_ttl ttl = if ltb_ℤ (pos 0) ttl then pos_part ttl else default_lease_ttl

-- `random` is the reference that randomRef draws, `none` where it fails.
unfoldable pub issue_for_owner :
    Option String → ℕ → String → ℤ → String → Broker → Broker × (SecretError ⊎ (String × ℕ))
issue_for_owner random now name ttl owner b = elim (lookup name b.secrets) [
  | none ↦ (b, inl unknown_secret)
  | some _ ↦ elim random [
    | none ↦ (b, inl no_randomness)
    | some ref ↦
        let expires = now + effective_ttl ttl in
        let granted : Lease = record { secret_name = name; expires_at = expires; owner = owner } in
        (record b { leases = insert ref granted b.leases }, inr (ref, expires))
  ]
]

unfoldable pub issue :
    Option String → ℕ → String → ℤ → Broker → Broker × (SecretError ⊎ (String × ℕ))
unfolding issue_for_owner
issue random now name ttl b = issue_for_owner random now name ttl "" b

unfoldable pub resolve : ℕ → String → Broker → Broker × (SecretError ⊎ String)
resolve now ref b = elim (lookup ref b.leases) [
  | none ↦ (b, inl unknown_lease)
  | some l ↦
      if ltb l.expires_at now
      then (record b { leases = remove ref b.leases }, inl lease_expired)
      else elim (lookup l.secret_name b.secrets) [
        | none ↦ (b, inl secret_gone)
        | some value ↦ (b, inr value)
      ]
]

unfoldable pub revoke : String → Broker → Broker
revoke ref b = record b { leases = remove ref b.leases }

abbrev pub is_owned : String → String × Lease → Bool
is_owned owner (ref, l) = l.owner == owner

-- The broker after the call, and how many leases were revoked.
unfoldable pub revoke_all_for_owner : String → Broker → Broker × ℕ
revoke_all_for_owner owner b = if owner == "" then (b, 0) else (
  record b { leases = keep (λ entry. not (is_owned owner entry)) b.leases },
  count_if (is_owned owner) b.leases,
)
