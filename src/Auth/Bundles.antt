-- ===== src/Auth/Bundles.antt =====
-- go/internal/auth/auth.go: the loading of a bundle of callers, and what a bearer token stands for.
use Prim.Native.Char.{Char, code}
use aeon_agent_harness.Prelude.{
  ℕ, zero, suc, String, Bool, true, false, ◌&&◌, ◌||◌, not, Option, none, some, List, [], ◌∷◌, ◌⊎◌,
  inl, inr, any, leb, if◌then◌else◌, ◌==◌, string_comparable, nat_comparable,
}
use aeon_agent_harness.Prelude.Text.{trim_space}
use aeon_agent_harness.Prelude.Dict.{lookup, insert}
use aeon_agent_harness.Json.{fold_code}
use aeon_agent_harness.Auth.{Caller, Kind, service, other_kind, is_tenant_name}

pub record CallerBundleDoc : Type 0 where
  pub api_version : String
  pub kind : String
  pub callers : List Caller

-- The refusals of Load, each with the caller's place or its id.
pub data BundleError : Type 0 where
  wrong_kind no_callers : BundleError
  no_id : ℕ → BundleError
  duplicate_id unknown_kind no_tenant bad_tenant : String → BundleError
  empty_other_tenant bad_other_tenant duplicate_other_tenant not_service : String → BundleError
  bad_token_hash : String → BundleError
  shared_token : String → String → BundleError

-- byTokenHash
abbrev pub Authenticator : Type 0
Authenticator = List (String × Caller)

-- The loop over mayActForTenants, of the caller `id` in the tenant `own`; `seen` are the entries
-- before.
unfoldable pub other_tenants :
    String → String → List String → List String → BundleError ⊎ List String
other_tenants id own seen [] = inr []
other_tenants id own seen (given ∷ rest) =
    let t = trim_space given in
    let others = other_tenants id own (t ∷ seen) rest in
    if t == ""
    then inl (empty_other_tenant id)
    else if not (is_tenant_name t)
    then inl (bad_other_tenant id)
    else if any (λ s. s == t) seen
    then inl (duplicate_other_tenant id)
    else if t == own
    then others
    else elim others [ inl why ↦ inl why | inr ts ↦ inr (t ∷ ts) ]

-- strings.ToLower of a hexadecimal digit. What is no digit is refused, lowered or not.
abbrev lower_digit : Char → Char
lower_digit c =
    if code c == b'A'
    then "a"
    else if code c == b'B'
    then "b"
    else if code c == b'C'
    then "c"
    else if code c == b'D'
    then "d"
    else if code c == b'E'
    then "e"
    else if code c == b'F'
    then "f"
    else c

abbrev lower_digits : String → String
lower_digits String.[] = String.[]
lower_digits (String.◌∷◌ c s) = String.◌∷◌ (lower_digit c) (lower_digits s)

abbrev is_hex_digit : ℕ → Bool
is_hex_digit c = (leb b'0' c && leb c b'9') || (leb b'a' c && leb c b'f')

-- n hexadecimal digits
abbrev are_hex_digits : ℕ → String → Bool
are_hex_digits zero String.[] = true
are_hex_digits zero (String.◌∷◌ c s) = false
are_hex_digits (suc n) String.[] = false
are_hex_digits (suc n) (String.◌∷◌ c s) = is_hex_digit (code c) && are_hex_digits n s

-- A hash of another length and one with other characters are the same refusal here.
unfoldable pub is_token_hash : String → Bool
is_token_hash s = are_hex_digits 64 s

unfoldable pub token_hash : Caller → String
token_hash c = lower_digits (trim_space c.token_sha256)

abbrev is_known_kind : Kind → Bool
is_known_kind (other_kind _) = false
is_known_kind _ = true

abbrev pub is_service : Kind → Bool
is_service service = true
is_service _ = false

abbrev pub is_nil : List String → Bool
is_nil [] = true
is_nil (_ ∷ _) = false

-- The entry as it is kept.
abbrev pub normalised : Caller → List String → Caller
normalised c others = record c {
  tenant = trim_space c.tenant;
  may_act_for_tenants = others;
  token_sha256 = token_hash c;
}

-- The checks of a caller's token, which come last.
abbrev check_token : Authenticator → Caller → List String → BundleError ⊎ Caller
check_token by_hash c others =
    if not (is_nil others) && not (is_service c.kind)
    then inl (not_service c.id)
    else if not (is_token_hash (token_hash c))
    then inl (bad_token_hash c.id)
    else elim (lookup (token_hash c) by_hash) [
      | some other ↦ inl (shared_token other.id c.id)
      | none ↦ inr (normalised c others)
    ]

-- The body of Load's loop, for the caller at place `i`.
unfoldable pub check_caller : ℕ → List String → Authenticator → Caller → BundleError ⊎ Caller
check_caller i seen by_hash c =
    let tenant = trim_space c.tenant in
    if c.id == ""
    then inl (no_id i)
    else if any (λ s. s == c.id) seen
    then inl (duplicate_id c.id)
    else if not (is_known_kind c.kind)
    then inl (unknown_kind c.id)
    else if tenant == ""
    then inl (no_tenant c.id)
    else if not (is_tenant_name tenant)
    then inl (bad_tenant c.id)
    else elim (other_tenants c.id tenant [] c.may_act_for_tenants) [
      | inl why ↦ inl why
      | inr others ↦ check_token by_hash c others
    ]

unfoldable pub load_callers :
    ℕ → List String → Authenticator → List Caller → BundleError ⊎ Authenticator
load_callers i seen by_hash [] = inr by_hash
load_callers i seen by_hash (c ∷ cs) = elim (check_caller i seen by_hash c) [
  | inl why ↦ inl why
  | inr kept ↦ load_callers (suc i) (c.id ∷ seen) (insert kept.token_sha256 kept by_hash) cs
]

abbrev pub load_some : List Caller → BundleError ⊎ Authenticator
load_some [] = inl no_callers
load_some (c ∷ cs) = load_callers 0 [] [] (c ∷ cs)

unfoldable pub load_bundle : CallerBundleDoc → BundleError ⊎ Authenticator
load_bundle doc =
    if not (doc.kind == "") && not (doc.kind == "CallerBundle")
    then inl wrong_kind
    else load_some doc.callers

-- `hash` is HashToken, the SHA-256 in hexadecimal. `none` is ErrUnauthenticated.
unfoldable pub authenticate : (String → String) → Authenticator → String → Option Caller
authenticate hash by_hash token = if token == "" then none else elim (lookup (hash token) by_hash) [
  | none ↦ none
  | some c ↦ if hash token == c.token_sha256 then some c else none
]

-- What follows a prefix, compared without regard to case.
abbrev after_prefix : String → String → Option String
after_prefix String.[] s = some s
after_prefix (String.◌∷◌ p prefix) String.[] = none
after_prefix (String.◌∷◌ p prefix) (String.◌∷◌ c s) =
    if fold_code (code p) == fold_code (code c) then after_prefix prefix s else none

-- bearerToken, of the Authorization header ("" where there is none).
unfoldable pub bearer_token : String → String
bearer_token header = elim (after_prefix "Bearer " header) [
  | none ↦ ""
  | some rest ↦ trim_space rest
]

-- Require: what the wrapped handler answers for the caller, or `none` for the answer 401.
unfoldable pub require :
    {A : Type 0} → (String → String) → Authenticator → (Caller → A) → String → Option A
require hash by_hash next header = elim (authenticate hash by_hash (bearer_token header)) [
  | none ↦ none
  | some c ↦ some (next c)
]
