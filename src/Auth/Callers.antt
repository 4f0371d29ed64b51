-- ===== src/Auth/Callers.antt =====
-- go/internal/auth/auth.go: who a token stands for once a bundle is loaded, and what it may claim.
use mathlib.Core.Logic.{◌↔◌}
use mathlib.Core.Path.{subst}
use aeon_agent_harness.Prelude.{
  ℕ, suc, String, true, none, some, List, [], ◌∷◌, ◌≡◌, ◌≢◌, refl, ◌⊎◌, inl, inr, arith, All, In,
  ◌==◌, string_comparable, eq_iff, Option-cases, Sum-cases, Bool-cases, sym, ◌∙◌,
}
use aeon_agent_harness.Prelude.Text.{trim_space}
use aeon_agent_harness.Prelude.Dict.{lookup, insert, lookup-insert}
use aeon_agent_harness.Auth.{Caller, is_tenant_name}
use aeon_agent_harness.Auth.Bundles.{
  CallerBundleDoc, Authenticator, other_tenants, token_hash, is_token_hash, is_service, is_nil,
  normalised, check_caller, load_callers, load_some, load_bundle, authenticate,
}

-- A tenant that is named beside the own one.
abbrev pub IsOther : String → String → Type 0
IsOther own t = (is_tenant_name t ≡ true) × (t ≢ own)

-- What a caller that was loaded may claim.
abbrev pub IsEntitled : Caller → Type 0
IsEntitled k =
    (is_tenant_name k.tenant ≡ true)
    × (is_token_hash k.token_sha256 ≡ true)
    × All (IsOther k.tenant) k.may_act_for_tenants
    × ((is_nil k.may_act_for_tenants ≡ true) ⊎ (is_service k.kind ≡ true))

-- The entry of the bundle is kept as `k`.
abbrev pub IsKeptAs : Caller → Caller → Type 0
IsKeptAs c k =
    (others : List String) × (other_tenants c.id (trim_space c.tenant) [] c.may_act_for_tenants
      ≡ inr others)
    × (k ≡ normalised c others)

other_tenants-All :
    (id own : String) (seen given others : List String)
    → other_tenants id own seen given ≡ inr others
    → All (IsOther own) others
unfolding other_tenants
other_tenants-All id own seen [] others h =
    let is : [] ≡ others = ground (arith, h) in subst (All (IsOther own)) is tt
other_tenants-All id own seen (g ∷ rest) others h =
    let t = trim_space g in
    elim (Sum-cases (other_tenants id own (t ∷ seen) rest)) [
      | inl (why, bad) ↦ absurd (ground (arith, bad, h))
      | inr (ts, good) ↦
          let later = other_tenants-All id own (t ∷ seen) rest ts good in
          elim (Bool-cases (t == own)) [
            | inl same ↦
                let is : ts ≡ others = ground (arith, good, same, h) in
                subst (All (IsOther own)) is later
            | inr other ↦
                let plain : is_tenant_name t ≡ true = ground (arith, good, other, h) in
                let is : t ∷ ts ≡ others = ground (arith, good, other, h) in
                subst (All (IsOther own)) is
                  ((plain, λ e. ground (arith, other, e, eq_iff t own)), later)
          ]
    ]

pub check_caller-ok :
    (i : ℕ) (seen : List String) (by_hash : Authenticator) (c kept : Caller)
    → check_caller i seen by_hash c ≡ inr kept
    → IsKeptAs c kept × IsEntitled kept × (lookup (token_hash c) by_hash ≡ none)
unfolding check_caller
check_caller-ok i seen by_hash c kept h =
    elim (Sum-cases (other_tenants c.id (trim_space c.tenant) [] c.may_act_for_tenants)) [
      | inl (why, bad) ↦ absurd (ground (arith, bad, h))
      | inr (others, good) ↦ elim (Option-cases (lookup (token_hash c) by_hash)) [
        | inr (other, taken) ↦ absurd (ground (arith, good, taken, h))
        | inl free ↦
            let is : normalised c others ≡ kept = ground (arith, good, free, h) in
            let entitled : IsEntitled (normalised c others) = (
              ground (arith, good, free, h),
              ground (arith, good, free, h),
              other_tenants-All c.id (trim_space c.tenant) [] c.may_act_for_tenants others good,
              ground (arith, good, free, h),
            ) in
            ((others, good, sym is), subst IsEntitled is entitled, free)
      ]
    ]

-- An entry whose token has the hash `h` is kept as `k`.
abbrev pub Declares : List Caller → String → Caller → Type 0
Declares cs h k = (c : Caller) × In c cs × (token_hash c ≡ h) × IsKeptAs c k

load_callers-Declares :
    (i : ℕ) (seen : List String) (by_hash table : Authenticator) (cs : List Caller) (h : String)
    (k : Caller)
    → load_callers i seen by_hash cs ≡ inr table
    → lookup h table ≡ some k
    → (lookup h by_hash ≡ some k) ⊎ Declares cs h k
unfolding load_callers
load_callers-Declares i seen by_hash table [] h k loaded found = inl (ground (arith, loaded, found))
load_callers-Declares i seen by_hash table (c ∷ cs) h k loaded found =
    elim (Sum-cases (check_caller i seen by_hash c)) [
      | inl (why, bad) ↦ absurd (ground (arith, bad, loaded))
      | inr (kept, good) ↦
          let ((others, fine, is), entitled, free) = check_caller-ok i seen by_hash c kept good in
          let by_hash' = insert kept.token_sha256 kept by_hash in
          elim (load_callers-Declares (suc i) (c.id ∷ seen) by_hash' table cs h k
            (ground (arith, good, loaded)) found) [
              | inr (d, there, hash, kept_as) ↦ inr (d, inr there, hash, kept_as)
              | inl early ↦ elim (Bool-cases (kept.token_sha256 == h)) [
                | inr other ↦
                    inl
                      (ground (arith, other, early, lookup-insert kept.token_sha256 h kept by_hash))
                | inl same ↦
                    let is_kept : k ≡ kept =
                      ground (arith, same, early, lookup-insert kept.token_sha256 h kept by_hash) in
                    inr (
                      c,
                      inl refl,
                      ground (arith, is, same, eq_iff kept.token_sha256 h),
                      (others, fine, is_kept ∙ is),
                    )
              ]
            ]
    ]

-- What is loaded stays.
load_callers-keeps :
    (i : ℕ) (seen : List String) (by_hash table : Authenticator) (cs : List Caller) (h : String)
    (k : Caller)
    → load_callers i seen by_hash cs ≡ inr table
    → lookup h by_hash ≡ some k
    → lookup h table ≡ some k
unfolding load_callers
load_callers-keeps i seen by_hash table [] h k loaded found = ground (arith, loaded, found)
load_callers-keeps i seen by_hash table (c ∷ cs) h k loaded found =
    elim (Sum-cases (check_caller i seen by_hash c)) [
      | inl (why, bad) ↦ absurd (ground (arith, bad, loaded))
      | inr (kept, good) ↦
          let ((others, fine, is), entitled, free) = check_caller-ok i seen by_hash c kept good in
          load_callers-keeps (suc i) (c.id ∷ seen) (insert kept.token_sha256 kept by_hash) table cs
            h k (ground (arith, good, loaded))
            (ground (
              arith,
              is,
              free,
              found,
              eq_iff kept.token_sha256 h,
              lookup-insert kept.token_sha256 h kept by_hash,
            ))
    ]

load_callers-finds :
    (i : ℕ) (seen : List String) (by_hash table : Authenticator) (cs : List Caller) (h : String)
    (k : Caller)
    → load_callers i seen by_hash cs ≡ inr table
    → Declares cs h k
    → lookup h table ≡ some k
unfolding load_callers
load_callers-finds i seen by_hash table [] h k loaded (c, there, _, _) = absurd there
load_callers-finds i seen by_hash table (c ∷ cs) h k loaded (d, there, hash, (others, fine, is)) =
    elim (Sum-cases (check_caller i seen by_hash c)) [
      | inl (why, bad) ↦ absurd (ground (arith, bad, loaded))
      | inr (kept, good) ↦
          let by_hash' = insert kept.token_sha256 kept by_hash in
          let rest : load_callers (suc i) (c.id ∷ seen) by_hash' cs ≡ inr table =
            ground (arith, good, loaded) in
          elim there [
            | inr later ↦
                load_callers-finds (suc i) (c.id ∷ seen) by_hash' table cs h k rest
                  (d, later, hash, (others, fine, is))
            | inl here ↦
                let ((others', fine', is'), _, free) = check_caller-ok i seen by_hash c kept good in
                let same : others ≡ others' = ground (arith, here, fine, fine') in
                let is_kept : k ≡ kept = ground (arith, here, same, is, is') in
                let hashed : kept.token_sha256 ≡ h = ground (arith, here, is', hash) in
                load_callers-keeps (suc i) (c.id ∷ seen) by_hash' table cs h k rest (
                  ground (
                    arith,
                    is_kept,
                    hashed,
                    eq_iff kept.token_sha256 h,
                    lookup-insert kept.token_sha256 h kept by_hash,
                  ))
          ]
    ]

pub load_bundle-callers :
    (doc : CallerBundleDoc) (table : Authenticator)
    → load_bundle doc ≡ inr table
    → load_callers 0 [] [] doc.callers ≡ inr table
unfolding load_bundle
load_bundle-callers doc table loaded = some_callers doc.callers (ground (arith, loaded))
  where
    some_callers :
        (cs : List Caller) → load_some cs ≡ inr table → load_callers 0 [] [] cs ≡ inr table
    some_callers [] h = absurd (ground (arith, h))
    some_callers (c ∷ cs) h = h

pub authenticate-lookup :
    (hash : String → String) (table : Authenticator) (token : String) (k : Caller)
    → authenticate hash table token ≡ some k
    → (lookup (hash token) table ≡ some k)
unfolding authenticate
authenticate-lookup hash table token k h = elim (Option-cases (lookup (hash token) table)) [
  | inl none_there ↦ absurd (ground (arith, none_there, h))
  | inr (c, there) ↦ ground (arith, there, h)
]

-- Where a bundle loads, a token that is not empty authenticates as a caller exactly if an entry of
-- the bundle declares the token's hash and is kept as that caller.
pub authenticate-load_bundle :
    (hash : String → String) (doc : CallerBundleDoc) (table : Authenticator) (token : String)
    (k : Caller)
    → load_bundle doc ≡ inr table
    → token ≢ ""
    → (authenticate hash table token ≡ some k) ↔ Declares doc.callers (hash token) k
unfolding authenticate lookup
authenticate-load_bundle hash doc table token k loaded named =
    let run = load_bundle-callers doc table loaded in
    (
      λ h. forth (
          load_callers-Declares 0 [] [] table doc.callers (hash token) k run
            (authenticate-lookup hash table token k h)),
      λ d. back d (load_callers-finds 0 [] [] table doc.callers (hash token) k run d),
    )
  where
    forth :
        (lookup (hash token) [] ≡ some k) ⊎ Declares doc.callers (hash token) k
        → Declares doc.callers (hash token) k
    forth (inl h) = absurd (ground (arith, h))
    forth (inr d) = d

    back :
        Declares doc.callers (hash token) k
        → lookup (hash token) table ≡ some k
        → authenticate hash table token ≡ some k
    back (c, there, hashed, (others, fine, is)) found =
        ground
          (arith, found, hashed, is, named, eq_iff token "", eq_iff (hash token) k.token_sha256)
