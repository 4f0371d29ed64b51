-- ===== src/Policy/Bundle.antt =====
-- What an engine that loads keeps of its bundle.
use aeon_agent_harness.Prelude.{
  ℕ, suc, ◌+◌, String, true, false, none, some, List, [], ◌∷◌, ◌≡◌, refl, ◌↔◌, ◌⊎◌, inl, inr, arith,
  In, string_comparable, Option-cases, Sum-cases, if◌then◌else◌, ◌∙◌, length, ◌==◌, eq_iff, sym,
  All-map, Option,
}
use aeon_agent_harness.Prelude.Dict.{lookup, insert, lookup-insert, length-insert_new}
use aeon_agent_harness.Policy.{
  Disposition, allow, is_valid, is_omitted, validate_declared_disposition,
}
use aeon_agent_harness.Policy.Engine.{
  Cedar, Engine, PolicyBundleItem, PolicyBundleDoc, with_policy, add_policies, load_item,
  load_items, load_engine, no_engine, policy_id_of, add_attributes, request_of, authorize,
}
use aeon_agent_harness.Policy.Strictness.{allowed_iff}
use aeon_agent_harness.Policy.Declared.{declared, AllDeclareAllow, lookup-load_engine-declared}

module _ (cedar : Cedar) where
  -- The policies that Cedar parses out of the entries.
  abbrev pub parsed : PolicyBundleItem → ℕ
  parsed item = elim (cedar.parse item.id item.cedar_source) [ none ↦ 0 | some ps ↦ length ps ]

  abbrev pub parsed_all : List PolicyBundleItem → ℕ
  parsed_all [] = 0
  parsed_all (item ∷ items) = parsed item + parsed_all items

  length-add_policies :
      (item : PolicyBundleItem) (total n : ℕ) (ps : List cedar.Policy)
      (engine engine' : Engine cedar)
      → add_policies cedar item total n ps engine ≡ inr engine'
      → length engine'.policy_set ≡ length engine.policy_set + length ps
  unfolding add_policies
  length-add_policies item total n [] engine engine' h = ground arith
  length-add_policies item total n (p ∷ ps) engine engine' h =
      let id = policy_id_of item.id total n in
      let added = with_policy cedar item id p engine in
      elim (Option-cases (lookup id engine.policy_set)) [
        | inr (_, taken) ↦ absurd (ground (arith, taken, h))
        | inl free ↦ ground (
          arith,
          length-insert_new id p engine.policy_set free,
          length-add_policies item total (suc n) ps added engine',
          free,
          h,
        )
      ]

  declares-add_policies :
      (item : PolicyBundleItem) (total n : ℕ) (ps : List cedar.Policy)
      (engine engine' : Engine cedar)
      → add_policies cedar item total n ps engine ≡ inr engine'
      → (id : String) (d : Disposition) → lookup id engine'.dispositions ≡ some d
      → (lookup id engine.dispositions ≡ some d)
        ⊎ ((item.disposition ≡ d) × (is_omitted item.disposition ≡ false))
  unfolding add_policies
  declares-add_policies item total n [] engine engine' h id d said = ground (arith, h, said)
  declares-add_policies item total n (p ∷ ps) engine engine' h id d said =
      let name = policy_id_of item.id total n in
      let added = with_policy cedar item name p engine in
      elim (Option-cases (lookup name engine.policy_set)) [
        | inr (_, taken) ↦ absurd (ground (arith, taken, h))
        | inl free ↦
            let rest : add_policies cedar item total (suc n) ps added ≡ inr engine' =
              ground (arith, free, h) in
            ground (
              arith,
              declares-add_policies item total (suc n) ps added engine' rest id d said,
              lookup-insert name id item.disposition engine.dispositions,
            )
      ]

  -- A disposition that an entry declares, and that was accepted for the entry's effect.
  abbrev pub Stated : PolicyBundleItem → Disposition → Type 0
  Stated item d =
      (item.disposition ≡ d)
      × (is_omitted item.disposition ≡ false)
      × (validate_declared_disposition item.effect item.disposition ≡ none)

  load_item_ok :
      (i : ℕ) (item : PolicyBundleItem) (engine engine' : Engine cedar)
      → load_item cedar i item engine ≡ inr engine'
      → (length engine'.policy_set ≡ length engine.policy_set + parsed item)
        × ((id : String) (d : Disposition)
            → lookup id engine'.dispositions ≡ some d
            → (lookup id engine.dispositions ≡ some d) ⊎ Stated item d)
  unfolding load_item
  load_item_ok i item engine engine' h =
      elim (Option-cases (validate_declared_disposition item.effect item.disposition)) [
        | inr (why, bad) ↦ absurd (ground (arith, bad, h))
        | inl fine ↦ elim (Option-cases (cedar.parse item.id item.cedar_source)) [
          | inl broken ↦ absurd (ground (arith, fine, broken, h))
          | inr (ps, read) ↦
              let added : add_policies cedar item (length ps) 0 ps engine ≡ inr engine' =
                ground (arith, fine, read, h) in
              (
                rw (read, parsed) (length-add_policies item (length ps) 0 ps engine engine' added),
                (λ id d said. ground (
                  arith,
                  declares-add_policies item (length ps) 0 ps engine engine' added id d said,
                  fine,
                )),
              )
        ]
      ]

  abbrev pub AnyStated : List PolicyBundleItem → Disposition → Type 0
  AnyStated items d = (item : PolicyBundleItem) × In item items × Stated item d

  load_items_ok :
      (i : ℕ) (items : List PolicyBundleItem) (engine engine' : Engine cedar)
      → load_items cedar i items engine ≡ inr engine'
      → (length engine'.policy_set ≡ length engine.policy_set + parsed_all items)
        × ((id : String) (d : Disposition)
            → lookup id engine'.dispositions ≡ some d
            → (lookup id engine.dispositions ≡ some d) ⊎ AnyStated items d)
  unfolding load_items
  load_items_ok i [] engine engine' h = (ground (arith, h), (λ id d said. ground (arith, h, said)))
  load_items_ok i (item ∷ items) engine engine' h =
      elim (Sum-cases (load_item cedar i item engine)) [
        | inl (why, bad) ↦ absurd (ground (arith, bad, h))
        | inr (next, good) ↦
            let (grown, first) = load_item_ok i item engine next good in
            let (more, rest) = load_items_ok (suc i) items next engine' (ground (arith, good, h)) in
            (
              omega (arith, grown, more),
              (λ id d said. elim (rest id d said) [
                | inr (x, there, stated) ↦ inr (x, inr there, stated)
                | inl earlier ↦ elim (first id d earlier) [
                  | inl before ↦ inl before
                  | inr stated ↦ inr (item, inl refl, stated)
                ]
              ]),
            )
      ]

  load_list_ok :
      (doc : PolicyBundleDoc) (engine : Engine cedar) (items : List PolicyBundleItem)
      → doc.policies ≡ items
      → load_engine cedar doc ≡ inr engine
      → (length engine.policy_set ≡ parsed_all items)
        × ((id : String) (d : Disposition)
            → lookup id engine.dispositions ≡ some d
            → AnyStated items d)
  unfolding load_engine lookup
  load_list_ok doc engine [] e h = absurd (ground (arith, e, h))
  load_list_ok doc engine (item ∷ items) e h =
      let (counted, from) =
        load_items_ok 0 (item ∷ items) (no_engine cedar) engine (ground (arith, e, h)) in
      (
        omega (arith, counted),
        (λ id d said. elim (from id d said) [ inl nothing ↦ cc | inr stated ↦ stated ]),
      )

  -- An engine that loads enforces every policy of its bundle: none replaced another, so there are as
  -- many in the set as Cedar parsed.
  pub length-load_engine :
      (doc : PolicyBundleDoc) (engine : Engine cedar)
      → load_engine cedar doc ≡ inr engine
      → length engine.policy_set ≡ parsed_all doc.policies
  length-load_engine doc engine h = (load_list_ok doc engine doc.policies refl h).0

  -- What a loaded engine holds as the disposition of a policy is what some entry of the bundle
  -- declares, and the check of that declaration against the entry's effect found nothing wrong.
  pub lookup-load_engine :
      (doc : PolicyBundleDoc) (engine : Engine cedar) (id : String) (d : Disposition)
      → load_engine cedar doc ≡ inr engine
      → lookup id engine.dispositions ≡ some d
      → AnyStated doc.policies d
  lookup-load_engine doc engine id d h said =
      (load_list_ok doc engine doc.policies refl h).1 id d said

  abbrev Allows : (String → Option Disposition) → String → Type 0
  Allows declares id = (d : Disposition) → declares id ≡ some d → d ≡ allow

  Stated-is_valid : (item : PolicyBundleItem) (d : Disposition) → Stated item d → is_valid d ≡ true
  unfolding validate_declared_disposition
  Stated-is_valid item d (same, stated, fine) =
      ground (arith, same, stated, fine, eq_iff item.effect "forbid")

  -- With an engine that loaded from a bundle, a call may run exactly if Cedar allows the request and
  -- each determining policy for which the bundle declares a disposition declares `allow`.
  pub authorize-allowed_iff :
      (doc : PolicyBundleDoc) (engine : Engine cedar)
      (principal_type principal_id resource_type resource_name : String)
      (extra : List (String × String))
      → load_engine cedar doc ≡ inr engine
      → ((authorize cedar engine principal_type principal_id resource_type resource_name
            extra).allowed
          ≡ true)
        ↔ (((cedar.decide engine.policy_set
                (request_of principal_type principal_id resource_type resource_name extra)).0
              ≡ true)
            × AllDeclareAllow cedar doc.policies
                (cedar.decide engine.policy_set
                  (request_of principal_type principal_id resource_type resource_name extra)).1)
  unfolding authorize
  authorize-allowed_iff doc engine principal_type principal_id resource_type resource_name extra h =
      let ids =
        (cedar.decide engine.policy_set
          (request_of principal_type principal_id resource_type resource_name extra)).1 in
      let (to, from) = allowed_iff cedar engine _ ids (λ id d said.
        let (item, _, by) = lookup-load_engine doc engine id d h said in
        Stated-is_valid item d by) in
      let same : (id : String) → lookup id engine.dispositions ≡ declared cedar doc.policies id =
        λ id. lookup-load_engine-declared cedar doc engine doc.policies id refl h in
      (
        (λ may.
            let (allows, all) = to may in
            (
              allows,
              All-map (Allows (λ id. lookup id engine.dispositions))
                  (λ id k d said. k d (same id ∙ said)) ids all,
            )),
        (λ (allows, all). from (
          allows,
          All-map (Allows (declared cedar doc.policies)) (λ id k d said. k d (sym (same id) ∙ said))
              ids all,
        )),
      )

-- Whatever attributes a caller adds, the `name` that the policies test is the resource's own.
pub name-add_attributes :
    (extra attrs : List (String × String))
    → lookup "name" (add_attributes extra attrs) ≡ lookup "name" attrs
unfolding add_attributes
name-add_attributes [] attrs = refl
name-add_attributes ((k, v) ∷ extra) attrs =
    name-add_attributes extra (if k == "name" then attrs else insert k v attrs)
    ∙ ground (arith, lookup-insert k "name" v attrs)
