-- ===== src/Policy/TenantSet.antt =====
-- go/internal/policy/registry.go: one engine per tenant.
use Prim.Native.Char.{code}
use aeon_agent_harness.Prelude.{
  ℕ, zero, suc, String, Bool, false, ◌||◌, Option, none, some, List, [], ◌∷◌, if◌then◌else◌, ◌==◌,
  ◌≡◌, ◌⊎◌, inl, inr, string_comparable, nat_comparable, refl, arith, eq_iff, some_inj, ◌∙◌, ap, In,
  Bool-cases, Option-cases, Sum-cases,
}
use aeon_agent_harness.Prelude.Text.{is_lower, in_name}
use aeon_agent_harness.Prelude.Dict.{lookup, insert, lookup-insert}
use aeon_agent_harness.Policy.Engine.{Cedar, Engine, PolicyBundleDoc, LoadError, load_engine}

-- [a-z0-9-]{0,n}\.ya?ml$, with the name matched so far. No `.` is in the class, so the match is the
-- only one.
unfoldable pub rest_of_name : ℕ → String → String → Option String
rest_of_name n name String.[] = none
rest_of_name zero name (String.◌∷◌ c s) =
    if String.◌∷◌ c s == ".yaml" || String.◌∷◌ c s == ".yml" then some name else none
rest_of_name (suc n) name (String.◌∷◌ c s) =
    if in_name (code c)
    then rest_of_name n (Prim.Native.String.◌++◌ name (String.◌∷◌ c String.[])) s
    else if String.◌∷◌ c s == ".yaml" || String.◌∷◌ c s == ".yml"
    then some name
    else none

-- tenantFileName.FindStringSubmatch: the tenant, or `none` for another name.
unfoldable pub tenant_of_file : String → Option String
unfolding rest_of_name
tenant_of_file String.[] = none
tenant_of_file (String.◌∷◌ c s) =
    if is_lower (code c) then rest_of_name 62 (String.◌∷◌ c String.[]) s else none

-- An entry of os.ReadDir, which lists a directory in the order of the names. A file comes with
-- what reading and decoding it as YAML gives, `none` for a failure.
pub record DirEntry : Type 0 where
  pub name : String
  pub is_dir : Bool
  pub doc : Option PolicyBundleDoc

pub data SetError : Type 0 where
  unreadable_dir no_bundle : SetError
  stray_file unreadable_file : String → SetError
  not_loaded : String → LoadError → SetError

module _ (cedar : Cedar) where
  abbrev pub ByTenant : Type 0
  ByTenant = List (String × Engine cedar)

  unfoldable pub load_engine_file : DirEntry → SetError ⊎ Engine cedar
  load_engine_file entry = elim entry.doc [
    | none ↦ inl (unreadable_file entry.name)
    | some doc ↦ elim (load_engine cedar doc) [
      | inl why ↦ inl (not_loaded entry.name why)
      | inr engine ↦ inr engine
    ]
  ]

  -- The loop of LoadSetFromDir.
  unfoldable pub load_entries : List DirEntry → ByTenant → SetError ⊎ ByTenant
  load_entries [] by_tenant = inr by_tenant
  load_entries (entry ∷ entries) by_tenant =
      let skipped = load_entries entries by_tenant in
      if entry.is_dir then skipped else elim (tenant_of_file entry.name) [
        | none ↦ inl (stray_file entry.name)
        | some tenant ↦ elim (load_engine_file entry) [
          | inl why ↦ inl why
          | inr engine ↦ load_entries entries (insert tenant engine by_tenant)
        ]
      ]

  abbrev some_bundle : ByTenant → SetError ⊎ ByTenant
  some_bundle [] = inl no_bundle
  some_bundle (b ∷ bs) = inr (b ∷ bs)

  -- LoadSetFromDir; `none` where the directory cannot be read.
  unfoldable pub load_set_from_dir : Option (List DirEntry) → SetError ⊎ ByTenant
  load_set_from_dir none = inl unreadable_dir
  load_set_from_dir (some entries) = elim (load_entries entries []) [
    | inl why ↦ inl why
    | inr by_tenant ↦ some_bundle by_tenant
  ]

  -- `none` is a nil *Set.
  unfoldable pub engine_for : Option ByTenant → String → Option (Engine cedar)
  engine_for none tenant = none
  engine_for (some by_tenant) tenant = if tenant == "" then none else lookup tenant by_tenant

  -- The engine of a file whose name is the tenant's.
  abbrev pub Loads : DirEntry → String → Engine cedar → Type 0
  Loads entry tenant engine =
      (entry.is_dir ≡ false)
      × (tenant_of_file entry.name ≡ some tenant)
      × (load_engine_file entry ≡ inr engine)

  Loads-same :
      (name tenant : String) (entry : DirEntry) (e engine : Engine cedar)
      → entry.is_dir ≡ false
      → tenant_of_file entry.name ≡ some name
      → load_engine_file entry ≡ inr e
      → name ≡ tenant
      → e ≡ engine
      → Loads entry tenant engine
  Loads-same name tenant entry e engine file named good same is =
      (file, named ∙ ap some same, good ∙ ap inr is)

  load_entries_from :
      (entries : List DirEntry) (by_tenant result : ByTenant) (tenant : String)
      (engine : Engine cedar)
      → load_entries entries by_tenant ≡ inr result
      → lookup tenant result ≡ some engine
      → (lookup tenant by_tenant ≡ some engine)
        ⊎ ((entry : DirEntry) × In entry entries × Loads entry tenant engine)
  unfolding load_entries
  load_entries_from [] by_tenant result tenant engine h found = inl (ground (arith, h, found))
  load_entries_from (entry ∷ entries) by_tenant result tenant engine h found =
      elim (Bool-cases entry.is_dir) [
        | inl dir ↦ later entry entries (
            load_entries_from entries by_tenant result tenant engine (ground (arith, dir, h)) found)
        | inr file ↦ elim (Option-cases (tenant_of_file entry.name)) [
          | inl stray ↦ absurd (ground (arith, file, stray, h))
          | inr (name, named) ↦ elim (Sum-cases (load_engine_file entry)) [
            | inl (why, bad) ↦ absurd (ground (arith, file, named, bad, h))
            | inr (e, good) ↦
                elim (load_entries_from entries (insert name e by_tenant) result tenant engine
                  (ground (arith, file, named, good, h)) found) [
                    | inr (x, there, loads) ↦ inr (x, inr there, loads)
                    | inl set ↦ elim (Bool-cases (name == tenant)) [
                      | inl same ↦ inr (
                        entry,
                        inl refl,
                        Loads-same name tenant entry e engine file named good
                            ((eq_iff name tenant).0 same)
                            (some_inj
                              (ground (arith, lookup-insert name tenant e by_tenant, same, set))),
                      )
                      | inr other ↦
                          inl (ground (arith, lookup-insert name tenant e by_tenant, other, set))
                    ]
                  ]
          ]
        ]
      ]
    where
      later :
          (e : DirEntry) (es : List DirEntry)
          → (lookup tenant by_tenant ≡ some engine)
            ⊎ ((x : DirEntry) × In x es × Loads x tenant engine)
          → (lookup tenant by_tenant ≡ some engine)
            ⊎ ((x : DirEntry) × In x (e ∷ es) × Loads x tenant engine)
      later e es (inl k) = inl k
      later e es (inr (x, there, loads)) = inr (x, inr there, loads)

  -- In a set loaded from a directory, the engine that a tenant is given is the one that a file of the
  -- directory named after that tenant loads. No tenant is given the engine of another's file.
  pub engine_for-load_set_from_dir :
      (entries : List DirEntry) (by_tenant : ByTenant) (tenant : String) (engine : Engine cedar)
      → load_set_from_dir (some entries) ≡ inr by_tenant
      → engine_for (some by_tenant) tenant ≡ some engine
      → (entry : DirEntry) × In entry entries × Loads entry tenant engine
  unfolding load_set_from_dir engine_for lookup
  engine_for-load_set_from_dir entries by_tenant tenant engine h found =
      elim (Sum-cases (load_entries entries [])) [
        | inl (why, bad) ↦ absurd (ground (arith, bad, h))
        | inr (result, good) ↦
            elim (load_entries_from entries [] result tenant engine good
              (loaded_found result good)) [
                | inl nothing ↦ absurd (ground (arith, nothing))
                | inr it ↦ it
              ]
      ]
    where
      loaded_found :
          (result : ByTenant)
          → load_entries entries [] ≡ inr result
          → lookup tenant result ≡ some engine
      loaded_found [] good = absurd (ground (arith, good, h))
      loaded_found (b ∷ bs) good = ground (arith, good, h, found)
