-- ===== src/Auth.antt =====
-- go/internal/auth/auth.go: a caller, and what its entry of the bundle lets it claim.
pub mod Bundles
pub mod Callers
pub mod Names
pub mod Directory
pub mod Boundary
use Prim.Native.Char.{code}
use aeon_agent_harness.Prelude.{
  ℕ, zero, suc, String, Bool, true, false, ◌&&◌, ◌||◌, List, any, ◌==◌, string_comparable,
}
use aeon_agent_harness.Prelude.Text.{is_lower, in_name}

-- A string type in Go; `other_kind` is any string but the three.
pub data Kind : Type 0 where
  service human external : Kind
  other_kind : String → Kind

pub record Caller : Type 0 where
  pub id : String
  pub kind : Kind
  pub token_sha256 : String
  pub may_act_as : List String
  pub may_approve : Bool
  pub tenant : String
  pub may_act_for_tenants : List String

unfoldable pub acts_for_tenant : Caller → String → Bool
acts_for_tenant c tenant =
    tenant == c.tenant || any (λ listed. listed == tenant) c.may_act_for_tenants

unfoldable pub acts_as : Caller → String → Bool
acts_as c agent = any (λ listed. listed == agent) c.may_act_as

-- [a-z0-9-]{0,n}$
abbrev rest_in_name : ℕ → String → Bool
rest_in_name n String.[] = true
rest_in_name zero (String.◌∷◌ c s) = false
rest_in_name (suc n) (String.◌∷◌ c s) = in_name (code c) && rest_in_name n s

-- tenantPattern, ^[a-z][a-z0-9-]{0,62}$
unfoldable pub is_tenant_name : String → Bool
is_tenant_name String.[] = false
is_tenant_name (String.◌∷◌ c s) = is_lower (code c) && rest_in_name 62 s
