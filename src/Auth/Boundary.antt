-- ===== src/Auth/Boundary.antt =====
-- go/internal/auth/auth.go and load.go: which tenants a token of a loaded bundle can reach.
use mathlib.Core.Path.{subst}
use aeon_agent_harness.Prelude.{
  ℕ, suc, String, false, some, List, [], ◌∷◌, ◌++◌, ◌≡◌, ◌≢◌, refl, ◌⊎◌, inl, inr, arith, In, ◌==◌,
  string_comparable, nat_comparable, eq_iff, Option-cases, Sum-cases, Bool-cases, In-append,
}
use aeon_agent_harness.Prelude.Dict.{lookup, insert, lookup-insert}
use aeon_agent_harness.Policy.TenantSet.{tenant_of_file}
use aeon_agent_harness.Auth.{Caller}
use aeon_agent_harness.Auth.Bundles.{
  CallerBundleDoc, Authenticator, token_hash, check_caller, load_callers, load_bundle, authenticate,
}
use aeon_agent_harness.Auth.Callers.{
  IsEntitled, check_caller-ok, load_bundle-callers, authenticate-lookup, authenticate-load_bundle,
}
use aeon_agent_harness.Auth.Names.{tenant_of_file-plain}
use aeon_agent_harness.Auth.Directory.{
  CallersEntry, Gathered, add_callers, add_doc, add_file, add_files, merged_doc, load_dir,
}

load_callers-IsEntitled :
    (i : ℕ) (seen : List String) (by_hash table : Authenticator) (cs : List Caller) (h : String)
    (k : Caller)
    → ((x : Caller) → lookup h by_hash ≡ some x → IsEntitled x)
    → load_callers i seen by_hash cs ≡ inr table
    → lookup h table ≡ some k
    → IsEntitled k
unfolding load_callers
load_callers-IsEntitled i seen by_hash table [] h k before loaded found =
    before k (ground (arith, loaded, found))
load_callers-IsEntitled i seen by_hash table (c ∷ cs) h k before loaded found =
    elim (Sum-cases (check_caller i seen by_hash c)) [
      | inl (why, bad) ↦ absurd (ground (arith, bad, loaded))
      | inr (kept, good) ↦
          let (_, entitled, _) = check_caller-ok i seen by_hash c kept good in
          load_callers-IsEntitled (suc i) (c.id ∷ seen) (insert kept.token_sha256 kept by_hash)
            table cs h k
            (λ x there. elim (Bool-cases (kept.token_sha256 == h)) [
              | inl same ↦
                  let is : kept ≡ x =
                    ground (arith, same, there, lookup-insert kept.token_sha256 h kept by_hash) in
                  subst IsEntitled is entitled
              | inr other ↦
                  before x
                    (ground (arith, other, there, lookup-insert kept.token_sha256 h kept by_hash))
            ])
            (ground (arith, good, loaded)) found
    ]

-- Whoever a token of a loaded bundle stands for has a tenant with a plain name, names other tenants
-- only if they are plain names and not its own, and names some only if it is a service.
pub authenticate-IsEntitled :
    (hash : String → String) (doc : CallerBundleDoc) (table : Authenticator) (token : String)
    (k : Caller)
    → load_bundle doc ≡ inr table
    → authenticate hash table token ≡ some k
    → IsEntitled k
unfolding lookup
authenticate-IsEntitled hash doc table token k loaded found =
    load_callers-IsEntitled 0 [] [] table doc.callers (hash token) k
      (λ x h. absurd (ground (arith, h))) (load_bundle-callers doc table loaded)
      (authenticate-lookup hash table token k found)

-- The file declares the entry, and its name is the entry's tenant.
abbrev pub IsDeclaredIn : CallersEntry → Caller → Type 0
IsDeclaredIn entry c =
    (entry.is_dir ≡ false)
    × (tenant_of_file entry.name ≡ some c.tenant)
    × (doc : CallerBundleDoc) × (entry.doc ≡ some doc)
    × In c doc.callers

add_callers-In :
    (file tenant : String) (cs : List Caller) (g g' : Gathered) (c : Caller)
    → add_callers file tenant cs g ≡ inr g'
    → In c g'.1
    → In c g.1 ⊎ (In c cs × (c.tenant ≡ tenant))
unfolding add_callers
add_callers-In file tenant [] g g' c h there = inl (ground (arith, h, there))
add_callers-In file tenant (d ∷ cs) (file_of, merged) g' c h there =
    elim (Option-cases (lookup d.id file_of)) [
      | inr (previous, twice) ↦ absurd (ground (arith, twice, h))
      | inl new ↦ elim (Bool-cases (d.tenant == tenant)) [
        | inr other ↦ absurd (ground (arith, new, other, h))
        | inl same ↦
            elim (add_callers-In file tenant cs (insert d.id file file_of, merged ++ d ∷ []) g' c
              (ground (arith, new, same, h)) there) [
                | inr (later, own) ↦ inr (inr later, own)
                | inl now ↦ elim (In-append c merged (d ∷ []) now) [
                  | inl before ↦ inl before
                  | inr (inl is) ↦ inr (inl is, ground (arith, is, same, eq_iff d.tenant tenant))
                  | inr (inr nowhere) ↦ absurd nowhere
                ]
              ]
      ]
    ]

add_file-In :
    (entry : CallersEntry) (g g' : Gathered) (c : Caller)
    → entry.is_dir ≡ false
    → add_file entry g ≡ inr g'
    → In c g'.1
    → In c g.1 ⊎ IsDeclaredIn entry c
unfolding add_file add_doc
add_file-In entry g g' c plain h there = elim (Option-cases (tenant_of_file entry.name)) [
  | inl stray ↦ absurd (ground (arith, stray, h))
  | inr (tenant, fits) ↦ elim (Option-cases entry.doc) [
    | inl unreadable ↦ absurd (ground (arith, fits, unreadable, h))
    | inr (doc, read) ↦
        elim (add_callers-In entry.name tenant doc.callers g g' c (ground (arith, fits, read, h))
          there) [
            | inl before ↦ inl before
            | inr (inside, own) ↦ inr (plain, ground (arith, fits, own), doc, read, inside)
          ]
  ]
]

add_files-In :
    (entries : List CallersEntry) (g g' : Gathered) (c : Caller)
    → add_files entries g ≡ inr g'
    → In c g'.1
    → In c g.1 ⊎ ((entry : CallersEntry) × In entry entries × IsDeclaredIn entry c)
unfolding add_files
add_files-In [] g g' c h there = inl (ground (arith, h, there))
add_files-In (entry ∷ entries) g g' c h there = elim (Bool-cases entry.is_dir) [
  | inl dir ↦ elim (add_files-In entries g g' c (ground (arith, dir, h)) there) [
    | inl before ↦ inl before
    | inr (e, inside, declared) ↦ inr (e, inr inside, declared)
  ]
  | inr plain ↦ elim (Sum-cases (add_file entry g)) [
    | inl (why, bad) ↦ absurd (ground (arith, plain, bad, h))
    | inr (next, good) ↦
        elim (add_files-In entries next g' c (ground (arith, plain, good, h)) there) [
          | inr (e, inside, declared) ↦ inr (e, inr inside, declared)
          | inl now ↦ elim (add_file-In entry g next c plain good now) [
            | inl before ↦ inl before
            | inr declared ↦ inr (entry, inl refl, declared)
          ]
        ]
  ]
]

load_dir-merged :
    (entries : List CallersEntry) (table : Authenticator)
    → load_dir (some entries) ≡ inr table
    → (g : Gathered) × (add_files entries ([], []) ≡ inr g)
      × (load_bundle (merged_doc g.1) ≡ inr table)
unfolding load_dir
load_dir-merged entries table h = elim (Sum-cases (add_files entries ([], []))) [
  | inl (why, bad) ↦ absurd (ground (arith, bad, h))
  | inr (g, good) ↦ elim (Sum-cases (load_bundle (merged_doc g.1))) [
    | inl (why, bad) ↦ absurd (ground (arith, good, bad, h))
    | inr (t, fine) ↦ (g, good, ground (arith, good, fine, h))
  ]
]

-- Where a directory loads, whoever a token that is not empty stands for is declared, by its token's
-- hash, in a file whose name is its tenant.
pub authenticate-load_dir :
    (hash : String → String) (entries : List CallersEntry) (table : Authenticator) (token : String)
    (k : Caller)
    → load_dir (some entries) ≡ inr table
    → token ≢ ""
    → authenticate hash table token ≡ some k
    → (entry : CallersEntry) × In entry entries
      × (tenant_of_file entry.name ≡ some k.tenant)
      × (c : Caller) × IsDeclaredIn entry c
      × (token_hash c ≡ hash token)
      × (k.id ≡ c.id)
authenticate-load_dir hash entries table token k loaded named found =
    let (g, gathered, merged) = load_dir-merged entries table loaded in
    let (c, there, hashed, (others, fine, is)) =
      (authenticate-load_bundle hash (merged_doc g.1) table token k merged named).0 found in
    elim (add_files-In entries ([], []) g c gathered there) [
      | inl nowhere ↦ absurd nowhere
      | inr (entry, inside, declared) ↦
          let (plain, fits, doc, read, written) = declared in
          let own : k.tenant ≡ c.tenant =
            ground (arith, is, tenant_of_file-plain entry.name c.tenant fits) in
          (entry, inside, ground (arith, fits, own), c, declared, hashed, ground (arith, is))
    ]
