-- ===== src/KillSwitch/Effects.antt =====
-- What an answer of the routes stands for, where no other call changes the registry from the UPDATE
-- of the request on, nor the breaker or the broker while it runs; before the UPDATE, others may
-- change the registry as they like.
use Prim.Native.Char.{Char}
use Prim.Native.String.append
use mathlib.Core.Path.{subst}
use aeon_agent_harness.Prelude.{
  ℕ, String, Bool, true, false, Option, none, some, List, [], ◌≡◌, ◌≢◌, refl, ◌⊎◌, inl, inr, arith,
  if◌then◌else◌, ◌==◌, ==_refl, string_comparable, pair_comparable, eq_iff, Option-cases, Sum-cases,
  sym, ap, ◌∙◌,
}
use aeon_agent_harness.Auth.{Caller}
use aeon_agent_harness.CircuitBreaker.{
  Floats, Observation, Reason, record_outcome, is_quarantined, window_of,
}
use aeon_agent_harness.CircuitBreaker.Trips.{is_quarantined-record_outcome, is_quarantined-reset}
use aeon_agent_harness.Registry.{
  AgentRecord, RegistryFaults, find_agent, update_agent, get_agent, read_back,
}
use aeon_agent_harness.Registry.Methods.{
  until_update, quarantine, unquarantine, write_agent, with_quarantine, without_quarantine,
}
use aeon_agent_harness.Registry.Rows.{KeepsKey, same_agent, find_agent-update_agent}
use aeon_agent_harness.Secrets
use aeon_agent_harness.Secrets.{Lease, resolve, revoke_all_for_owner}
use aeon_agent_harness.Secrets.Leases.{NoLeaseOf, NoLeaseOf-revoke_all_for_owner}
use aeon_agent_harness.KillSwitch.{
  Switches, tripped, quarantined, cleared, owner_of, revoke_credentials, apply_quarantine,
  after_verdict, record_outcome_route, quarantine_route, unquarantine_route,
}

read_back-find :
    (f : RegistryFaults) (t n v : String) (rows : List AgentRecord) (rec : AgentRecord)
    → read_back f t n v rows ≡ inr rec
    → find_agent t n v rows ≡ some rec
unfolding read_back get_agent
read_back-find f t n v rows rec h = elim (Option-cases (find_agent t n v rows)) [
  | inl missing ↦ absurd (ground (arith, missing, h))
  | inr (a, there) ↦ ground (arith, there, h)
]

-- A write that answers has changed the row that it answers with.
write_agent-ok :
    (f : RegistryFaults) (others : List AgentRecord → List AgentRecord)
    (set : AgentRecord → AgentRecord) (t n v : String) (rows : List AgentRecord) (rec : AgentRecord)
    → KeepsKey set
    → (write_agent f (until_update others) set t n v rows).1 ≡ inr rec
    → (find_agent t n v (write_agent f (until_update others) set t n v rows).0 ≡ some rec)
      × (a : AgentRecord) × (rec ≡ set a)
unfolding write_agent same_agent
write_agent-ok f others set t n v rows rec same h =
    let rows' = update_agent set t n v rows in
    let there : find_agent t n v rows' ≡ some rec =
      read_back-find f t n v rows' rec (ground (arith, h)) in
    elim (Option-cases (find_agent t n v rows)) [
      | inl missing ↦
          absurd (ground (arith, missing, there, find_agent-update_agent t n v set t n v rows same))
      | inr (a, found) ↦ (
        ground (arith, h, there),
        a,
        ground (
          arith,
          found,
          there,
          find_agent-update_agent t n v set t n v rows same,
          ==_refl t,
          ==_refl n,
          ==_refl v,
        ),
      )
    ]

is_empty : String → Bool
is_empty String.[] = true
is_empty (String.◌∷◌ c s) = false

cons_named : (c : Char) (s : String) → String.◌∷◌ c s ≢ ""
unfolding is_empty
cons_named c s e = ground (arith, ap is_empty e)

append_named : (s t : String) → (s ≢ "") ⊎ (t ≢ "") → Prim.Native.String.◌++◌ s t ≢ ""
append_named String.[] t (inl h) e = h refl
append_named String.[] t (inr h) e = h (sym (λ i. append.nil t i) ∙ e)
append_named (String.◌∷◌ c s) t h e = cons_named c _ (sym (λ i. append.cons c s t i) ∙ e)

owner_named : (n v : String) → owner_of n v ≢ ""
owner_named n v =
    append_named n (Prim.Native.String.◌++◌ "@" v)
      (inr (append_named "@" v (inl (λ e. ground (arith, eq_iff "@" "", e)))))

abbrev pub NoneLeft : String → Option Secrets.Broker → Type 0
NoneLeft owner none = Unit {0}
NoneLeft owner (some b) = NoLeaseOf owner b

NoneLeft-revoke_credentials :
    (n v : String) (secrets : Option Secrets.Broker)
    → NoneLeft (owner_of n v) (revoke_credentials n v secrets)
unfolding revoke_credentials
NoneLeft-revoke_credentials n v none = tt
NoneLeft-revoke_credentials n v (some b) =
    NoLeaseOf-revoke_all_for_owner b (owner_of n v) (owner_named n v)

quarantine-ok :
    (f : RegistryFaults) (others : List AgentRecord → List AgentRecord) (now : ℕ)
    (t n v reason : String) (rows : List AgentRecord) (rec : AgentRecord)
    → (quarantine f (until_update others) now t n v reason rows).1 ≡ inr rec
    → (find_agent t n v (quarantine f (until_update others) now t n v reason rows).0 ≡ some rec)
      × (rec.quarantined ≡ true)
unfolding quarantine
quarantine-ok f others now t n v reason rows rec h =
    elim (Sum-cases (get_agent f.on_read t n v rows)) [
      | inl (why, bad) ↦ absurd (ground (arith, bad, h))
      | inr (current, read) ↦ ground (
        arith,
        read,
        h,
        write_agent-ok f others (with_quarantine reason now) t n v (others rows) rec
            (λ x. (refl, refl, refl)),
      )
    ]

unquarantine-ok :
    (f : RegistryFaults) (others : List AgentRecord → List AgentRecord) (now : ℕ) (t n v : String)
    (rows : List AgentRecord) (rec : AgentRecord)
    → (unquarantine f (until_update others) now t n v rows).1 ≡ inr rec
    → (find_agent t n v (unquarantine f (until_update others) now t n v rows).0 ≡ some rec)
      × (rec.quarantined ≡ false)
unfolding unquarantine
unquarantine-ok f others now t n v rows rec h = elim (Sum-cases (get_agent f.on_read t n v rows)) [
  | inl (why, bad) ↦ absurd (ground (arith, bad, h))
  | inr (current, read) ↦ ground (
    arith,
    read,
    h,
    write_agent-ok f others (without_quarantine now) t n v (others rows) rec
        (λ x. (refl, refl, refl)),
  )
]

module _ (fl : Floats) (text_of : Reason fl → String) (f : RegistryFaults)
    (others : List AgentRecord → List AgentRecord) (now : ℕ) where
  -- The version is quarantined in the tenant's registry, with the record that was answered, and no
  -- lease of the broker is the version's.
  abbrev pub IsCutOff : String → String → String → AgentRecord → Switches fl → Type 0
  IsCutOff t n v rec s =
      (find_agent t n v s.agents ≡ some rec)
      × (rec.quarantined ≡ true)
      × NoneLeft (owner_of n v) s.secrets

  apply_quarantine-IsCutOff :
      (t n v reason : String) (s : Switches fl) (rec : AgentRecord)
      → (apply_quarantine fl text_of f (until_update others) now t n v reason s).1 ≡ inr rec
      → IsCutOff t n v rec
          (apply_quarantine fl text_of f (until_update others) now t n v reason s).0
  unfolding apply_quarantine revoke_credentials
  apply_quarantine-IsCutOff t n v reason s rec h =
      elim (Sum-cases (quarantine f (until_update others) now t n v reason s.agents).1) [
        | inl (why, bad) ↦ absurd (ground (arith, bad, h))
        | inr (found, good) ↦
            let (row, shut) = quarantine-ok f others now t n v reason s.agents found good in
            (
              ground (arith, good, h, row),
              ground (arith, good, h, shut),
              subst (NoneLeft (owner_of n v)) (ground (arith, good))
                  (NoneLeft-revoke_credentials n v s.secrets),
            )
      ]

  breaker-apply_quarantine :
      (t n v reason : String) (s : Switches fl)
      → (apply_quarantine fl text_of f (until_update others) now t n v reason s).0.breaker
        ≡ s.breaker
  unfolding apply_quarantine
  breaker-apply_quarantine t n v reason s = ground arith

  -- Where a recorded outcome is answered as a trip, the version is quarantined in the breaker and in
  -- the registry of the caller's tenant, and no lease of the broker is the version's. This is for a
  -- request during which no other call touches the breaker or the broker, nor the registry once the
  -- request's UPDATE is made.
  pub record_outcome_route-IsCutOff :
      (who : Caller) (n v reason : String) (obs : Observation fl) (s : Switches fl)
      (rec : AgentRecord)
      → (record_outcome_route fl text_of f (until_update others) now (some who) n v (some obs) s).1
        ≡ tripped reason rec
      → let s' =
          (record_outcome_route fl text_of f
            (until_update others)
            now
            (some who)
            n
            v
            (some obs)
            s).0 in
        IsCutOff who.tenant n v rec s' × (is_quarantined fl s'.breaker (n, v) ≡ true)
  unfolding record_outcome_route after_verdict
  record_outcome_route-IsCutOff who n v reason obs s rec h =
      let breaker' = (record_outcome fl (n, v) obs s.breaker).0 in
      let s0 : Switches fl = record s { breaker = breaker' } in
      elim (Option-cases (record_outcome fl (n, v) obs s.breaker).1) [
        | inl calm ↦ absurd (ground (arith, calm, h))
        | inr (why, trips) ↦
            elim (Sum-cases
              (apply_quarantine fl text_of f (until_update others) now who.tenant n v (text_of why)
                s0).1) [
                  | inl (failed, bad) ↦ absurd (ground (arith, trips, bad, h))
                  | inr (found, good) ↦
                      let after : (record_outcome_route fl text_of f (until_update others) now
                            (some who) n v (some obs) s).0
                          ≡ (apply_quarantine fl text_of f (until_update others) now who.tenant n v
                              (text_of why) s0).0 =
                        ground (arith, trips, good) in
                      let shut : is_quarantined fl breaker' (n, v) ≡ true = ground (
                        arith,
                        trips,
                        is_quarantined-record_outcome fl s.breaker (n, v) (n, v) obs,
                        ==_refl n,
                        ==_refl v,
                      ) in
                      subst
                        (λ x.
                          IsCutOff who.tenant n v rec x
                          × (is_quarantined fl x.breaker (n, v) ≡ true))
                        (sym after)
                        (
                          subst
                              (λ x.
                                IsCutOff who.tenant n v x
                                  (apply_quarantine fl text_of f (until_update others) now
                                    who.tenant n v (text_of why) s0).0)
                              (ground (arith, trips, good, h))
                              (apply_quarantine-IsCutOff who.tenant n v (text_of why) s0 found
                                good),
                          ap (λ b. is_quarantined fl b (n, v))
                                (breaker-apply_quarantine who.tenant n v (text_of why) s0)
                              ∙ shut,
                        )
                ]
      ]

  -- A quarantine by hand that is answered with a record has the same effect, but on the breaker,
  -- on the same terms.
  pub quarantine_route-IsCutOff :
      (who : Caller) (n v given : String) (s : Switches fl) (rec : AgentRecord)
      → (quarantine_route fl text_of f (until_update others) now (some who) n v (some given) s).1
        ≡ quarantined rec
      → IsCutOff who.tenant n v rec
          (quarantine_route fl text_of f (until_update others) now (some who) n v (some given) s).0
  unfolding quarantine_route
  quarantine_route-IsCutOff who n v given s rec h =
      let reason = if given == "" then "manual kill switch" else given in
      elim (Sum-cases
        (apply_quarantine fl text_of f (until_update others) now who.tenant n v reason s).1) [
          | inl (why, bad) ↦ absurd (ground (arith, bad, h))
          | inr (found, good) ↦
              let is : found ≡ rec = ground (arith, good, h) in
              subst
                (λ x.
                  IsCutOff who.tenant n v x
                    (apply_quarantine fl text_of f (until_update others) now who.tenant n v reason
                      s).0)
                is (apply_quarantine-IsCutOff who.tenant n v reason s found good)
        ]

  -- Where the quarantine is lifted, the version is not quarantined in the registry of the caller's
  -- tenant, nor in the breaker, whose window of it is empty. This is for a request during which no
  -- other call touches the breaker, nor the registry once the request's UPDATE is made.
  pub unquarantine_route-clears :
      (who : Caller) (n v : String) (s : Switches fl) (rec : AgentRecord)
      → (unquarantine_route fl text_of f (until_update others) now (some who) n v s).1 ≡ cleared rec
      → let s' = (unquarantine_route fl text_of f (until_update others) now (some who) n v s).0 in
        (find_agent who.tenant n v s'.agents ≡ some rec)
        × (rec.quarantined ≡ false)
        × (is_quarantined fl s'.breaker (n, v) ≡ false)
        × (window_of fl s'.breaker (n, v) ≡ [])
  unfolding unquarantine_route
  unquarantine_route-clears who n v s rec h =
      elim (Sum-cases (unquarantine f (until_update others) now who.tenant n v s.agents).1) [
        | inl (why, bad) ↦ absurd (ground (arith, bad, h))
        | inr (found, good) ↦
            let (row, open_) = unquarantine-ok f others now who.tenant n v s.agents found good in
            let (calm, empty) = is_quarantined-reset fl s.breaker (n, v) (n, v) in
            (
              ground (arith, good, h, row),
              ground (arith, good, h, open_),
              ground (arith, good, calm, ==_refl n, ==_refl v),
              ground (arith, good, empty, ==_refl n, ==_refl v),
            )
      ]
