-- ===== src/Policy/Strictness.antt =====
-- The strictest declaration wins, in whatever order the determining policies are reported.
use mathlib.Core.Path.{subst}
use aeon_agent_harness.Prelude.{
  String, Bool, true, false, none, some, List, [], ◌∷◌, ◌≡◌, refl, ◌↔◌, ◌⊎◌, inl, inr, arith, All,
  string_comparable, Option-cases, some_inj, ap, sym, ◌∙◌, All-map,
}
use aeon_agent_harness.Prelude.Int.{ℤ, ◌≤ℤ◌}
use aeon_agent_harness.Prelude.Dict.{lookup}
use aeon_agent_harness.Policy.{
  Disposition, allow, is_valid, permits_execution, strictness, stricter, derived_disposition,
}
use aeon_agent_harness.Policy.Engine.{Cedar, Engine, strictest, stricter_with, decision_of}

-- `stricter` is the maximum of the two.
pub stricter_max :
    (a b : Disposition)
    → (strictness a ≤ℤ strictness (stricter a b))
      × (strictness b ≤ℤ strictness (stricter a b))
      × ((stricter a b ≡ a) ⊎ (stricter a b ≡ b))
unfolding stricter
stricter_max a b = ground arith

≤ℤ_trans : (a b c : ℤ) → a ≤ℤ b → b ≤ℤ c → a ≤ℤ c
≤ℤ_trans a b c h k = omega arith

module _ (declared : List (String × Disposition)) where
  -- What a policy declares is at most as strict as d.
  abbrev pub Covers : Disposition → String → Type 0
  Covers d id = (d' : Disposition) → lookup id declared ≡ some d' → strictness d' ≤ℤ strictness d

  -- A disposition that some policy of the list declares.
  abbrev pub IsDeclared : Disposition → List String → Type 0
  IsDeclared d [] = ⊥
  IsDeclared d (id ∷ ids) = (lookup id declared ≡ some d) ⊎ IsDeclared d ids

  stricter_with-none :
      (id : String) (found : Disposition × Bool)
      → lookup id declared ≡ none
      → stricter_with declared id found ≡ found
  unfolding stricter_with
  stricter_with-none id found h = rw (h, stricter_with)

  stricter_with-some :
      (id : String) (found : Disposition × Bool) (d : Disposition)
      → lookup id declared ≡ some d
      → stricter_with declared id found ≡ (stricter found.0 d, true)
  unfolding stricter_with
  stricter_with-some id found d h = rw (h, stricter_with)

  stricter_with-Covers :
      (id : String) (found : Disposition × Bool)
      → (strictness found.0 ≤ℤ strictness (stricter_with declared id found).0)
        × Covers (stricter_with declared id found).0 id
        × (((stricter_with declared id found).0 ≡ found.0)
            ⊎ (lookup id declared ≡ some (stricter_with declared id found).0))
  stricter_with-Covers id (d, flag) = elim (Option-cases (lookup id declared)) [
    | inl silent ↦
        rw (stricter_with-none id (d, flag) silent)
          (omega arith, (λ d' h. cc (sym silent ∙ h)), inl refl)
    | inr (x, said) ↦
        let (left, right, which) = stricter_max d x in
        rw (stricter_with-some id (d, flag) x said) (
          left,
          (λ d' h.
              subst (λ y. strictness y ≤ℤ strictness (stricter d x)) (some_inj (sym said ∙ h))
                right),
          (elim which [ inl e ↦ inl e | inr e ↦ inr (said ∙ ap some (sym e)) ]),
        )
  ]

  -- Whatever the order in which the determining policies are reported, the result of the loop is at
  -- least as strict as the start and as every declaration of those policies, and is the start or one
  -- of those declarations.
  pub strictest-Covers :
      (ids : List String) (found : Disposition × Bool)
      → (strictness found.0 ≤ℤ strictness (strictest declared ids found).0)
        × All (Covers (strictest declared ids found).0) ids
        × (((strictest declared ids found).0 ≡ found.0)
            ⊎ IsDeclared (strictest declared ids found).0 ids)
  unfolding strictest
  strictest-Covers [] found = (omega arith, tt, inl refl)
  strictest-Covers (id ∷ ids) found =
      let next = stricter_with declared id found in
      let (over, rest, from) = strictest-Covers ids next in
      let (left, here, which) = stricter_with-Covers id found in
      let last = (strictest declared ids next).0 in
      (
        ≤ℤ_trans (strictness found.0) (strictness next.0) (strictness last) left over,
        (
          (λ d' h. ≤ℤ_trans (strictness d') (strictness next.0) (strictness last) (here d' h) over),
          rest,
        ),
        (elim from [
          | inr later ↦ inr (inr later)
          | inl kept ↦ elim which [
            | inl first ↦ inl (kept ∙ first)
            | inr said ↦ inr (inl (said ∙ ap some (sym kept)))
          ]
        ]),
      )

least_valid : (d : Disposition) → is_valid d ≡ true → strictness d ≤ℤ strictness allow → d ≡ allow
unfolding is_valid strictness
least_valid d h k = ground arith

permits-allow : (d : Disposition) → permits_execution d ≡ true → d ≡ allow
unfolding permits_execution
permits-allow d h = ground arith

abbrev pub AllAllow : List (String × Disposition) → List String → Type 0
AllAllow declared ids = All (λ id. (d : Disposition) → lookup id declared ≡ some d → d ≡ allow) ids

declared-allow :
    (declared : List (String × Disposition)) (d : Disposition) (ids : List String)
    → IsDeclared declared d ids
    → AllAllow declared ids
    → d ≡ allow
declared-allow declared d [] h k = absurd h
declared-allow declared d (id ∷ ids) (inl here) (k, rest) = k d here
declared-allow declared d (id ∷ ids) (inr later) (k, rest) =
    declared-allow declared d ids later rest

module _ (cedar : Cedar) (engine : Engine cedar) where
  -- Over a set of valid declarations, a call may run exactly if Cedar allows it and every
  -- determining policy that declares a disposition declares `allow`.
  pub allowed_iff :
      (verdict : Bool) (reasons : List String)
      → ((id : String) (d : Disposition)
          → lookup id engine.dispositions ≡ some d
          → is_valid d ≡ true)
      → ((decision_of cedar engine (verdict, reasons)).allowed ≡ true) ↔ (
          (verdict ≡ true)
          × All
              (λ id. (d : Disposition) → lookup id engine.dispositions ≡ some d → d ≡ allow)
              reasons)
  unfolding decision_of derived_disposition
  allowed_iff false reasons valid = ((λ h. cc), (λ h. cc (h.0)))
  allowed_iff true reasons valid =
      let declared = engine.dispositions in
      let (_, covers, from) = strictest-Covers declared reasons (allow, false) in
      let d = (strictest declared reasons (allow, false)).0 in
      (
        (λ h.
            let is_allow : d ≡ allow = permits-allow d h in
            (
              refl,
              All-map (Covers declared d)
                  (λ id cover d' said.
                    least_valid d' (valid id d' said)
                      (subst (λ y. strictness d' ≤ℤ strictness y) is_allow (cover d' said)))
                  reasons covers,
            )),
        (λ h.
            let is_allow : d ≡ allow = elim from [
              | inl e ↦ e
              | inr some_id ↦ declared-allow declared d reasons some_id h.1
            ] in
            rw is_allow (unfold permits_execution in refl)),
      )
