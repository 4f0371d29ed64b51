-- ===== src/Policy/Engine.antt =====
-- go/internal/policy/cedar.go: loading a bundle, and deciding a request. Cedar itself is a
-- dependency, and enters as a record.
use aeon_agent_harness.Prelude.{
  ℕ, suc, String, Bool, true, false, ◌&&◌, Option, none, some, List, [], ◌∷◌, if◌then◌else◌, ◌==◌,
  ◌⊎◌, inl, inr, string_comparable, length, ltb, nat_comparable,
}
use aeon_agent_harness.Prelude.Dict.{lookup, insert}
use aeon_agent_harness.Prelude.Text.{decimal}
use aeon_agent_harness.Policy.{
  Disposition, DispositionError, permits_execution, stricter, is_omitted,
  validate_declared_disposition, derived_disposition,
}

pub record EntityUid : Type 0 where
  pub entity_type : String
  pub id : String

-- The one entity of the request is its resource, with string attributes; the context is empty.
pub record Request : Type 0 where
  pub principal : EntityUid
  pub action : EntityUid
  pub resource : EntityUid
  pub attributes : List (String × String)

-- github.com/cedar-policy/cedar-go: NewPolicyListFromBytes, with `none` for a parse error, and
-- Authorize, with the verdict (true for Allow) and the ids of the policies that determined it.
pub record Cedar : Type 1 where
  pub Policy : Type 0
  pub parse : String → String → Option (List Policy)
  pub decide : List (String × Policy) → Request → Bool × List String

pub record PolicyBundleItem : Type 0 where
  pub id : String
  pub effect : String
  pub cedar_source : String
  pub disposition : Disposition

pub record PolicyBundleDoc : Type 0 where
  pub api_version : String
  pub kind : String
  pub cedar_version : String
  pub policies : List PolicyBundleItem

pub data LoadError : Type 0 where
  no_policies : LoadError
  no_id : ℕ → LoadError
  bad_disposition : String → DispositionError → LoadError
  parse_failed empty_entry duplicate_id : String → LoadError

pub record Decision : Type 0 where
  pub allowed : Bool
  pub policy_id : String
  pub cedar_allows : Bool
  pub disposition : Disposition
  pub disposition_declared : Bool

-- The id under which the n-th policy of an entry is added.
abbrev pub policy_id_of : String → ℕ → ℕ → String
policy_id_of id total n =
    if ltb 1 total then Prim.Native.String.◌++◌ id (Prim.Native.String.◌++◌ "#" (decimal n)) else id

pub record Engine (cedar : Cedar) : Type 0 where
  pub policy_set : List (String × cedar.Policy)
  pub dispositions : List (String × Disposition)

-- The loop over the attributes that a caller adds: `name` is not overridable.
unfoldable pub add_attributes :
    List (String × String) → List (String × String) → List (String × String)
add_attributes [] attrs = attrs
add_attributes ((k, v) ∷ extra) attrs =
    add_attributes extra (if k == "name" then attrs else insert k v attrs)

-- What one determining policy adds to the strictest declaration so far.
unfoldable pub stricter_with :
    List (String × Disposition) → String → Disposition × Bool → Disposition × Bool
stricter_with declared id found = elim (lookup id declared) [
  | none ↦ found
  | some d ↦ (stricter found.0 d, true)
]

-- The strictest declaration of the determining policies, over the derived one.
unfoldable pub strictest :
    List (String × Disposition) → List String → Disposition × Bool → Disposition × Bool
unfolding stricter_with
strictest declared [] found = found
strictest declared (id ∷ ids) found = strictest declared ids (stricter_with declared id found)

abbrev first_or_empty : List String → String
first_or_empty [] = ""
first_or_empty (id ∷ _) = id

unfoldable pub request_of : String → String → String → String → List (String × String) → Request
unfolding add_attributes
request_of principal_type principal_id resource_type resource_name extra = record {
  principal = record { entity_type = principal_type; id = principal_id };
  action = record { entity_type = "Action"; id = resource_name };
  resource = record { entity_type = resource_type; id = resource_name };
  attributes = add_attributes extra (("name", resource_name) ∷ []);
}

module _ (cedar : Cedar) where
  -- The engine with one policy more, under the id that it was given.
  abbrev pub with_policy : PolicyBundleItem → String → cedar.Policy → Engine cedar → Engine cedar
  with_policy item id parsed engine = record {
    policy_set = insert id parsed engine.policy_set;
    dispositions =
        if is_omitted item.disposition
        then engine.dispositions
        else insert id item.disposition engine.dispositions;
  }

  -- The loop over the policies of one entry, the n-th first. PolicySet.Add answers false where the
  -- id was there.
  unfoldable pub add_policies :
      PolicyBundleItem → ℕ → ℕ → List cedar.Policy → Engine cedar → LoadError ⊎ Engine cedar
  add_policies item total n [] engine = inr engine
  add_policies item total n (parsed ∷ rest) engine =
      let id = policy_id_of item.id total n in
      let next = add_policies item total (suc n) rest (with_policy item id parsed engine) in
      elim (lookup id engine.policy_set) [ some _ ↦ inl (duplicate_id id) | none ↦ next ]

  -- One round of the loop over the bundle.
  unfoldable pub load_item : ℕ → PolicyBundleItem → Engine cedar → LoadError ⊎ Engine cedar
  load_item i item engine =
      if item.id == ""
      then inl (no_id i)
      else elim (validate_declared_disposition item.effect item.disposition) [
        | some why ↦ inl (bad_disposition item.id why)
        | none ↦ elim (cedar.parse item.id item.cedar_source) [
          | none ↦ inl (parse_failed item.id)
          | some [] ↦ inl (empty_entry item.id)
          | some (p ∷ ps) ↦ add_policies item (length (p ∷ ps)) 0 (p ∷ ps) engine
        ]
      ]

  unfoldable pub load_items : ℕ → List PolicyBundleItem → Engine cedar → LoadError ⊎ Engine cedar
  load_items i [] engine = inr engine
  load_items i (item ∷ items) engine = elim (load_item i item engine) [
    | inl why ↦ inl why
    | inr engine' ↦ load_items (suc i) items engine'
  ]

  abbrev pub no_engine : Engine cedar
  no_engine = record { policy_set = []; dispositions = [] }

  unfoldable pub load_engine : PolicyBundleDoc → LoadError ⊎ Engine cedar
  load_engine doc = elim doc.policies [
    | [] ↦ inl no_policies
    | item ∷ items ↦ load_items 0 (item ∷ items) no_engine
  ]

  unfoldable pub decision_of : Engine cedar → Bool × List String → Decision
  unfolding strictest
  decision_of engine (verdict, reasons) =
      let (d, is_declared) =
        strictest engine.dispositions reasons (derived_disposition verdict, false) in
      record {
        allowed = verdict && permits_execution d;
        policy_id = first_or_empty reasons;
        cedar_allows = verdict;
        disposition = d;
        disposition_declared = is_declared;
      }

  unfoldable pub authorize :
      Engine cedar → String → String → String → String → List (String × String) → Decision
  unfolding decision_of request_of
  authorize engine principal_type principal_id resource_type resource_name extra =
      decision_of engine (
        cedar.decide engine.policy_set
          (request_of principal_type principal_id resource_type resource_name extra))

  unfoldable pub is_allowed : Engine cedar → String → String → Decision
  unfolding authorize
  is_allowed engine agent tool = authorize engine "Agent" agent "Tool" tool []

  unfoldable pub is_allowed_for_principal : Engine cedar → String → String → String → Decision
  unfolding authorize
  is_allowed_for_principal engine principal_type principal_id tool =
      authorize engine principal_type principal_id "Tool" tool []

  unfoldable pub is_allowed_to_delegate : Engine cedar → String → String → Decision
  unfolding authorize
  is_allowed_to_delegate engine agent remote =
      authorize engine "Agent" agent "RemoteAgent" remote []

  unfoldable pub is_allowed_to_run_activity : Engine cedar → String → String → String → Decision
  unfolding authorize
  is_allowed_to_run_activity engine agent activity task_queue =
      authorize engine "Agent" agent "ExternalActivity" activity (("task_queue", task_queue) ∷ [])
