-- ===== src/Policy/Declared.antt =====
-- Which disposition a bundle declares for a policy, by the policy's id.
use aeon_agent_harness.Prelude.{
  ℕ, suc, String, Bool, false, ◌&&◌, ◌||◌, not, Option, none, some, List, [], ◌∷◌, ◌≡◌, refl, inl,
  inr, arith, string_comparable, Option-cases, Sum-cases, if◌then◌else◌, ◌∙◌, length, ◌==◌, All,
}
use aeon_agent_harness.Prelude.Dict.{lookup, lookup-insert}
use aeon_agent_harness.Policy.{Disposition, allow, is_omitted, validate_declared_disposition}
use aeon_agent_harness.Policy.Engine.{
  Cedar, Engine, PolicyBundleItem, PolicyBundleDoc, with_policy, add_policies, load_item,
  load_items, load_engine, no_engine, policy_id_of,
}

-- `later`, or else `earlier`.
abbrev pub or_else : Option Disposition → Option Disposition → Option Disposition
or_else none earlier = earlier
or_else (some d) earlier = some d

module _ (cedar : Cedar) where
  -- Whether a policy of the entry, from the n-th of `total` on, has the id.
  abbrev pub names : PolicyBundleItem → ℕ → ℕ → List cedar.Policy → String → Bool
  names item total n [] id = false
  names item total n (_ ∷ ps) id =
      (policy_id_of item.id total n == id) || names item total (suc n) ps id

  -- What the entry declares for the policy: nothing where no policy that Cedar parses out of the
  -- entry has the id, or where the entry states no disposition.
  abbrev pub declared_by : PolicyBundleItem → String → Option Disposition
  declared_by item id = elim (cedar.parse item.id item.cedar_source) [
    | none ↦ none
    | some ps ↦
        if names item (length ps) 0 ps id && not (is_omitted item.disposition)
        then some item.disposition
        else none
  ]

  -- What the bundle declares for the policy, by the last entry that declares something for it.
  abbrev pub declared : List PolicyBundleItem → String → Option Disposition
  declared [] id = none
  declared (item ∷ items) id = or_else (declared items id) (declared_by item id)

  -- Each policy of the list for which the bundle declares a disposition declares `allow`.
  abbrev pub AllDeclareAllow : List PolicyBundleItem → List String → Type 0
  AllDeclareAllow items ids =
      All (λ id. (d : Disposition) → declared items id ≡ some d → d ≡ allow) ids

  lookup-add_policies :
      (item : PolicyBundleItem) (total n : ℕ) (ps : List cedar.Policy)
      (engine engine' : Engine cedar) (id : String)
      → add_policies cedar item total n ps engine ≡ inr engine'
      → lookup id engine'.dispositions ≡ (
          if names item total n ps id && not (is_omitted item.disposition)
          then some item.disposition
          else lookup id engine.dispositions)
  unfolding add_policies
  lookup-add_policies item total n [] engine engine' id h = ground (arith, h)
  lookup-add_policies item total n (p ∷ ps) engine engine' id h =
      let name = policy_id_of item.id total n in
      let added = with_policy cedar item name p engine in
      elim (Option-cases (lookup name engine.policy_set)) [
        | inr (_, taken) ↦ absurd (ground (arith, taken, h))
        | inl free ↦
            let rest : add_policies cedar item total (suc n) ps added ≡ inr engine' =
              ground (arith, free, h) in
            ground (
              arith,
              lookup-add_policies item total (suc n) ps added engine' id rest,
              lookup-insert name id item.disposition engine.dispositions,
            )
      ]

  lookup-load_item :
      (i : ℕ) (item : PolicyBundleItem) (engine engine' : Engine cedar) (id : String)
      → load_item cedar i item engine ≡ inr engine'
      → lookup id engine'.dispositions
        ≡ or_else (declared_by item id) (lookup id engine.dispositions)
  unfolding load_item
  lookup-load_item i item engine engine' id h =
      elim (Option-cases (validate_declared_disposition item.effect item.disposition)) [
        | inr (why, bad) ↦ absurd (ground (arith, bad, h))
        | inl fine ↦ elim (Option-cases (cedar.parse item.id item.cedar_source)) [
          | inl broken ↦ absurd (ground (arith, fine, broken, h))
          | inr (ps, read) ↦
              let added : add_policies cedar item (length ps) 0 ps engine ≡ inr engine' =
                ground (arith, fine, read, h) in
              ground
                (arith, read, lookup-add_policies item (length ps) 0 ps engine engine' id added)
        ]
      ]

  lookup-load_items :
      (i : ℕ) (items : List PolicyBundleItem) (engine engine' : Engine cedar) (id : String)
      → load_items cedar i items engine ≡ inr engine'
      → lookup id engine'.dispositions ≡ or_else (declared items id) (lookup id engine.dispositions)
  unfolding load_items
  lookup-load_items i [] engine engine' id h = ground (arith, h)
  lookup-load_items i (item ∷ items) engine engine' id h =
      elim (Sum-cases (load_item cedar i item engine)) [
        | inl (why, bad) ↦ absurd (ground (arith, bad, h))
        | inr (next, good) ↦ ground (
          arith,
          lookup-load_items (suc i) items next engine' id (ground (arith, good, h)),
          lookup-load_item i item engine next id good,
        )
      ]

  -- A loaded engine holds for every policy what the bundle declares for it.
  pub lookup-load_engine-declared :
      (doc : PolicyBundleDoc) (engine : Engine cedar) (items : List PolicyBundleItem) (id : String)
      → doc.policies ≡ items
      → load_engine cedar doc ≡ inr engine
      → lookup id engine.dispositions ≡ declared items id
  unfolding load_engine lookup
  lookup-load_engine-declared doc engine [] id e h = absurd (ground (arith, e, h))
  lookup-load_engine-declared doc engine (item ∷ items) id e h =
      lookup-load_items 0 (item ∷ items) (no_engine cedar) engine id (ground (arith, e, h))
      ∙ or_else-none (declared (item ∷ items) id)
    where
      or_else-none : (d : Option Disposition) → or_else d none ≡ d
      or_else-none none = refl
      or_else-none (some d) = refl
