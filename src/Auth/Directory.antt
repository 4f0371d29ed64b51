-- ===== src/Auth/Directory.antt =====
-- go/internal/auth/load.go: the bundle of callers from a file, or from a file for each tenant.
use aeon_agent_harness.Prelude.{
  String, Bool, true, false, not, ◌&&◌, Option, none, some, List, [], ◌∷◌, ◌++◌, ◌⊎◌, inl, inr,
  if◌then◌else◌, ◌==◌, string_comparable,
}
use aeon_agent_harness.Prelude.Dict.{lookup, insert}
use aeon_agent_harness.Policy.TenantSet.{tenant_of_file}
use aeon_agent_harness.Auth.{Caller}
use aeon_agent_harness.Auth.Bundles.{CallerBundleDoc, BundleError, Authenticator, load_bundle}

-- An entry of the directory, in the order of the names, which os.ReadDir lists in. A file comes with
-- what reading and decoding it gives, `none` for a failure.
pub record CallersEntry : Type 0 where
  pub name : String
  pub is_dir : Bool
  pub doc : Option CallerBundleDoc

-- The refusals of LoadDir, each with the file's name and, for a caller, its id.
pub data DirError : Type 0 where
  unreadable_dir : DirError
  stray_file unreadable_file not_caller_bundle declares_no_callers : String → DirError
  wrong_tenant declared_twice : String → String → DirError
  not_one_bundle : BundleError → DirError

-- What LoadDir has gathered: fileOf, and the callers of `merged`.
abbrev pub Gathered : Type 0
Gathered = List (String × String) × List Caller

-- The loop over a file's callers.
unfoldable pub add_callers : String → String → List Caller → Gathered → DirError ⊎ Gathered
add_callers file tenant [] g = inr g
add_callers file tenant (c ∷ cs) (file_of, merged) =
    if not (c.tenant == tenant) then inl (wrong_tenant file c.id) else elim (lookup c.id file_of) [
      | some previous ↦ inl (declared_twice previous c.id)
      | none ↦ add_callers file tenant cs (insert c.id file file_of, merged ++ c ∷ [])
    ]

abbrev is_empty_list : List Caller → Bool
is_empty_list [] = true
is_empty_list (_ ∷ _) = false

unfoldable pub add_doc : String → String → CallerBundleDoc → Gathered → DirError ⊎ Gathered
add_doc file tenant doc g =
    if not (doc.kind == "") && not (doc.kind == "CallerBundle")
    then inl (not_caller_bundle file)
    else if is_empty_list doc.callers
    then inl (declares_no_callers file)
    else add_callers file tenant doc.callers g

-- One round of the loop over the files.
unfoldable pub add_file : CallersEntry → Gathered → DirError ⊎ Gathered
add_file entry g = elim (tenant_of_file entry.name) [
  | none ↦ inl (stray_file entry.name)
  | some tenant ↦ elim entry.doc [
    | none ↦ inl (unreadable_file entry.name)
    | some doc ↦ add_doc entry.name tenant doc g
  ]
]

unfoldable pub add_files : List CallersEntry → Gathered → DirError ⊎ Gathered
add_files [] g = inr g
add_files (entry ∷ entries) g =
    let skipped = add_files entries g in
    if entry.is_dir
    then skipped
    else elim (add_file entry g) [ inl why ↦ inl why | inr g' ↦ add_files entries g' ]

abbrev pub merged_doc : List Caller → CallerBundleDoc
merged_doc callers = record { api_version = ""; kind = "CallerBundle"; callers = callers }

abbrev pub as_one_bundle : List Caller → DirError ⊎ Authenticator
as_one_bundle callers = elim (load_bundle (merged_doc callers)) [
  | inl why ↦ inl (not_one_bundle why)
  | inr table ↦ inr table
]

-- `none` where the directory cannot be read.
unfoldable pub load_dir : Option (List CallersEntry) → DirError ⊎ Authenticator
load_dir none = inl unreadable_dir
load_dir (some entries) = elim (add_files entries ([], [])) [
  | inl why ↦ inl why
  | inr (file_of, merged) ↦ as_one_bundle merged
]

-- `none` where the file cannot be read or decoded.
unfoldable pub load_file : Option CallerBundleDoc → Option BundleError ⊎ Authenticator
load_file none = inl none
load_file (some doc) = elim (load_bundle doc) [ inl why ↦ inl (some why) | inr table ↦ inr table ]

pub data StartError : Type 0 where
  both_set neither_set : StartError
  file_refused : Option BundleError → StartError
  dir_refused : DirError → StartError

-- MustLoadFromEnv, of the two variables ("" for one that is not set) and what they name. An error
-- ends the process.
unfoldable pub must_load_from_env :
    (String → Option CallerBundleDoc)
    → (String → Option (List CallersEntry))
    → String
    → String
    → StartError ⊎ Authenticator
must_load_from_env read_file read_dir path dir =
    if not (path == "") && not (dir == "")
    then inl both_set
    else if path == "" && dir == ""
    then inl neither_set
    else if not (dir == "")
    then elim (load_dir (read_dir dir)) [ inl why ↦ inl (dir_refused why) | inr table ↦ inr table ]
    else elim (load_file (read_file path)) [
      | inl why ↦ inl (file_refused why)
      | inr table ↦ inr table
    ]
