-- ===== src/Policy.antt =====
-- go/internal/policy/disposition.go: what the enforcement seam tells the loop to do.
pub mod Engine
pub mod Declared
pub mod Strictness
pub mod Bundle
pub mod TenantSet
use aeon_agent_harness.Prelude.{
  ℕ, String, Bool, true, false, ◌||◌, ◌&&◌, not, Option, none, some, if◌then◌else◌, ◌==◌,
  string_comparable,
}
use aeon_agent_harness.Prelude.Int.{ℤ, pos, negsuc, ltb_ℤ}

-- A string type in Go; `other` is any string but the four.
pub data Disposition : Type 0 where
  allow deny_step terminate_run require_approval : Disposition
  other : String → Disposition

unfoldable pub permits_execution : Disposition → Bool
permits_execution allow = true
permits_execution _ = false

unfoldable pub terminal : Disposition → Bool
terminal terminate_run = true
terminal _ = false

unfoldable pub is_valid : Disposition → Bool
is_valid allow = true
is_valid deny_step = true
is_valid terminate_run = true
is_valid require_approval = true
is_valid (other _) = false

unfoldable pub strictness : Disposition → ℤ
strictness allow = pos 0
strictness require_approval = pos 1
strictness deny_step = pos 2
strictness terminate_run = pos 3
strictness (other _) = negsuc 0

unfoldable pub stricter : Disposition → Disposition → Disposition
unfolding strictness
stricter a b = if ltb_ℤ (strictness a) (strictness b) then b else a

-- d == "": the bundle declares none.
abbrev pub is_omitted : Disposition → Bool
is_omitted (other s) = s == ""
is_omitted _ = false

pub data DispositionError : Type 0 where
  unknown_disposition forbid_cannot permit_cannot : Disposition → DispositionError

abbrev lets_run : Disposition → Bool
lets_run allow = true
lets_run require_approval = true
lets_run _ = false

abbrev refuses : Disposition → Bool
refuses deny_step = true
refuses terminate_run = true
refuses _ = false

-- `none` is Go's nil error.
unfoldable pub validate_declared_disposition : String → Disposition → Option DispositionError
unfolding is_valid
validate_declared_disposition effect d =
    if is_omitted d
    then none
    else if not (is_valid d)
    then some (unknown_disposition d)
    else if effect == "forbid"
    then (if lets_run d then some (forbid_cannot d) else none)
    else if effect == "permit"
    then (if refuses d then some (permit_cannot d) else none)
    else none

unfoldable pub derived_disposition : Bool → Disposition
derived_disposition true = allow
derived_disposition false = deny_step
