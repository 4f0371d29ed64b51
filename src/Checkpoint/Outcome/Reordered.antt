-- ===== src/Checkpoint/Outcome/Reordered.antt =====
-- An outcome's payload whose members were put in another order.
use mathlib.Core.Path.{subst}
use aeon_agent_harness.Prelude.{
  String, true, some, ◌≡◌, ◌≢◌, refl, arith, ◌⊎◌, inl, inr, eq_iff, sym, ◌∙◌, ◌==◌,
  string_comparable, Bool-cases,
}
use aeon_agent_harness.Json.{
  Json, text, object, Members, no_members, member, RawMessage, absent, malformed, valid,
  names_field,
}
use aeon_agent_harness.Checkpoint.Outcome.{
  OutcomeEnvelope, empty_envelope, read_member, read_members, read_envelope, text_member,
  raw_member,
}

abbrev pub InMembers : String → Json → Members → Type 0
InMembers key j no_members = ⊥
InMembers key j (member k i ms) = ((k ≡ key) × (i ≡ j)) ⊎ InMembers key j ms

abbrev pub HasKey : String → Members → Type 0
HasKey key no_members = ⊥
HasKey key (member k i ms) = (k ≡ key) ⊎ HasKey key ms

-- A string stays the string that it is.
abbrev pub KeptAs : Json → Json → Type 0
KeptAs i j = (s : String) → i ≡ text s → j ≡ text s

-- The members of the second object are those of the first in some order, possibly with duplicates
-- left out and with values written otherwise, but for strings.
abbrev pub IsReordered : Members → Members → Type 0
IsReordered ms ns =
    ((key : String) (j : Json) → InMembers key j ns → (i : Json) × InMembers key i ms × KeptAs i j)
    × ((key : String) → HasKey key ms → HasKey key ns)

module _ (outcome reason decided_by : String) where
  -- A member that an envelope may have.
  abbrev Belongs : String → Json → Type 0
  Belongs key j =
      ((key ≡ "outcome") × (j ≡ text outcome))
      ⊎ (((key ≡ "reason") × (j ≡ text reason))
          ⊎ (((key ≡ "decided_by") × (j ≡ text decided_by)) ⊎ (key ≡ "result")))

  -- What was read, or is there to be read.
  abbrev Settled : Members → OutcomeEnvelope → Type 0
  Settled ns env =
      (HasKey "outcome" ns ⊎ (env.outcome ≡ outcome))
      × (HasKey "reason" ns ⊎ (env.reason ≡ reason))
      × (HasKey "decided_by" ns ⊎ (env.decided_by ≡ decided_by))

  abbrev pub Says : OutcomeEnvelope → Type 0
  Says env = (env.outcome ≡ outcome) × (env.reason ≡ reason) × (env.decided_by ≡ decided_by)

  -- A member under another key leaves a field as it is.
  still :
      {P : Type 0} (key other wanted : String) (j : Json) (rest : Members)
      → key ≡ other
      → other ≢ wanted
      → HasKey wanted (member key j rest) ⊎ P
      → HasKey wanted rest ⊎ P
  still key other wanted j rest is apart (inl (inl same)) = absurd (apart (sym is ∙ same))
  still key other wanted j rest is apart (inl (inr later)) = inl later
  still key other wanted j rest is apart (inr done) = inr done

  -- A member that belongs there is read, and what it is the member of is settled.
  read_member-Belongs :
      (key : String) (j : Json) (rest : Members) (env : OutcomeEnvelope)
      → Belongs key j
      → Settled (member key j rest) env
      → (env' : OutcomeEnvelope) × (read_member key j env ≡ (env', true)) × Settled rest env'
  unfolding names_field
  read_member-Belongs key j rest env (inl (k, is)) (o, r, d) = (
    record env { outcome = outcome },
    rw (k, is) refl,
    (
      inr refl,
      still key "outcome" "reason" j rest k (λ e. ground (arith, e, eq_iff "outcome" "reason")) r,
      still key "outcome" "decided_by" j rest k
          (λ e. ground (arith, e, eq_iff "outcome" "decided_by")) d,
    ),
  )
  read_member-Belongs key j rest env (inr (inl (k, is))) (o, r, d) = (
    record env { reason = reason },
    rw (k, is) refl,
    (
      still key "reason" "outcome" j rest k (λ e. ground (arith, e, eq_iff "reason" "outcome")) o,
      inr refl,
      still key "reason" "decided_by" j rest k
          (λ e. ground (arith, e, eq_iff "reason" "decided_by")) d,
    ),
  )
  read_member-Belongs key j rest env (inr (inr (inl (k, is)))) (o, r, d) = (
    record env { decided_by = decided_by },
    rw (k, is) refl,
    (
      still key "decided_by" "outcome" j rest k
          (λ e. ground (arith, e, eq_iff "decided_by" "outcome")) o,
      still key "decided_by" "reason" j rest k
          (λ e. ground (arith, e, eq_iff "decided_by" "reason")) r,
      inr refl,
    ),
  )
  read_member-Belongs key j rest env (inr (inr (inr k))) (o, r, d) = (
    record env { result = valid j },
    rw k refl,
    (
      still key "result" "outcome" j rest k (λ e. ground (arith, e, eq_iff "result" "outcome")) o,
      still key "result" "reason" j rest k (λ e. ground (arith, e, eq_iff "result" "reason")) r,
      still key "result" "decided_by" j rest k
          (λ e. ground (arith, e, eq_iff "result" "decided_by")) d,
    ),
  )

  read_members-Says :
      (ns : Members) (env : OutcomeEnvelope)
      → ((key : String) (j : Json) → InMembers key j ns → Belongs key j)
      → Settled ns env
      → (env' : OutcomeEnvelope) × (read_members ns env true ≡ (env', true)) × Says env'
  unfolding read_members
  read_members-Says no_members env fits (o, r, d) = (
    env,
    refl,
    (
      elim o [ inl bad ↦ absurd bad | inr is ↦ is ],
      elim r [ inl bad ↦ absurd bad | inr is ↦ is ],
      elim d [ inl bad ↦ absurd bad | inr is ↦ is ],
    ),
  )
  read_members-Says (member key j ns) env fits settled =
      let (env', read, rest) =
        read_member-Belongs key j ns env (fits key j (inl (refl, refl))) settled in
      let (env'', more, says) =
        read_members-Says ns env' (λ k i there. fits k i (inr there)) rest in
      (env'', rw read more, says)

  text_member-Belongs :
      (key wanted s : String) (i : Json) (rest : Members)
      → InMembers key i (text_member wanted s rest)
      → ((key ≡ wanted) × (i ≡ text s)) ⊎ InMembers key i rest
  text_member-Belongs key wanted s i rest there = elim (Bool-cases (s == "")) [
    | inl empty ↦
        let is : text_member wanted s rest ≡ rest = ground (arith, empty) in
        inr (subst (InMembers key i) is there)
    | inr given ↦
        let is : text_member wanted s rest ≡ member wanted (text s) rest = ground (arith, given) in
        let there' : InMembers key i (member wanted (text s) rest) =
          subst (InMembers key i) is there in
        elim there' [ inl (k, is) ↦ inl (sym k, sym is) | inr later ↦ inr later ]
  ]

  raw_member-Belongs :
      (key : String) (i : Json) (result : RawMessage)
      → InMembers key i (raw_member "result" result no_members)
      → key ≡ "result"
  raw_member-Belongs key i absent there = absurd there
  raw_member-Belongs key i (malformed t) there = absurd there
  raw_member-Belongs key i (valid j) (inl (k, is)) = sym k
  raw_member-Belongs key i (valid j) (inr later) = absurd later

  -- The members that OutcomePayloadDecidedBy writes.
  abbrev pub written : RawMessage → Members
  written result = member "outcome" (text outcome) (
      text_member "reason" reason
        (text_member "decided_by" decided_by (raw_member "result" result no_members)))

  written-Belongs :
      (result : RawMessage) (key : String) (i : Json)
      → InMembers key i (written result)
      → Belongs key i
  written-Belongs result key i (inl (k, is)) = inl (sym k, sym is)
  written-Belongs result key i (inr there) =
      elim (text_member-Belongs key "reason" reason i _ there) [
        | inl found ↦ inr (inl found)
        | inr later ↦ elim (text_member-Belongs key "decided_by" decided_by i _ later) [
          | inl found ↦ inr (inr (inl found))
          | inr last ↦ inr (inr (inr (raw_member-Belongs key i result last)))
        ]
      ]

  Belongs-KeptAs : (key : String) (i j : Json) → KeptAs i j → Belongs key i → Belongs key j
  Belongs-KeptAs key i j kept (inl (k, is)) = inl (k, kept outcome is)
  Belongs-KeptAs key i j kept (inr (inl (k, is))) = inr (inl (k, kept reason is))
  Belongs-KeptAs key i j kept (inr (inr (inl (k, is)))) = inr (inr (inl (k, kept decided_by is)))
  Belongs-KeptAs key i j kept (inr (inr (inr k))) = inr (inr (inr k))

  text_member-HasKey :
      (wanted s : String) (rest : Members) → HasKey wanted (text_member wanted s rest) ⊎ ("" ≡ s)
  text_member-HasKey wanted s rest = elim (Bool-cases (s == "")) [
    | inl empty ↦ inr (ground (arith, empty, eq_iff s ""))
    | inr given ↦
        let is : member wanted (text s) rest ≡ text_member wanted s rest = ground (arith, given) in
        inl (subst (HasKey wanted) is (inl refl))
  ]

  HasKey-text_member :
      (key wanted s : String) (rest : Members)
      → HasKey key rest
      → HasKey key (text_member wanted s rest)
  HasKey-text_member key wanted s rest there = elim (Bool-cases (s == "")) [
    | inl empty ↦
        let is : rest ≡ text_member wanted s rest = ground (arith, empty) in
        subst (HasKey key) is there
    | inr given ↦
        let is : member wanted (text s) rest ≡ text_member wanted s rest = ground (arith, given) in
        subst (HasKey key) is (inr there)
  ]

  -- An envelope whose members were put in another order says the same, but for the result's text.
  pub read_envelope-IsReordered :
      (result : RawMessage) (ns : Members)
      → IsReordered (written result) ns
      → (env : OutcomeEnvelope) × (read_envelope (valid (object ns)) ≡ some env) × Says env
  unfolding read_envelope
  read_envelope-IsReordered result ns (from, keys) =
      let decided =
        text_member-HasKey "decided_by" decided_by (raw_member "result" result no_members) in
      let settled : Settled ns empty_envelope = (
        inl (keys "outcome" (inl refl)),
        elim (text_member-HasKey "reason" reason
            (text_member "decided_by" decided_by (raw_member "result" result no_members))) [
              | inl there ↦ inl (keys "reason" (inr there))
              | inr empty ↦ inr empty
            ],
        elim decided [
          | inl there ↦
              inl
                (keys "decided_by" (inr (HasKey-text_member "decided_by" "reason" reason _ there)))
          | inr empty ↦ inr empty
        ],
      ) in
      let (env, read, says) =
        read_members-Says ns empty_envelope
          (λ key j there.
            let (i, inside, kept) = from key j there in
            Belongs-KeptAs key i j kept (written-Belongs result key i inside))
          settled in
      (env, ground (arith, read), says)
