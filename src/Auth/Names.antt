-- ===== src/Auth/Names.antt =====
-- go/internal/auth/load.go: the tenant that a file's name gives is a plain name.
use Prim.Native.Char.{code}
use Prim.Native.String.append
use aeon_agent_harness.Prelude.{
  ℕ, zero, suc, String, Bool, true, false, ◌&&◌, some, inl, inr, ◌≡◌, refl, arith,
  string_comparable, nat_comparable, Bool-cases, ap, ◌∙◌,
}
use aeon_agent_harness.Prelude.Text.{is_lower, in_name, is_space, trim_right, trim_space}
use aeon_agent_harness.Policy.TenantSet.{rest_of_name, tenant_of_file}

-- Every character may stand in a name.
abbrev all_in_name : String → Bool
all_in_name String.[] = true
all_in_name (String.◌∷◌ c s) = in_name (code c) && all_in_name s

is_space-name : (n : ℕ) → in_name n ≡ true → is_space n ≡ false
is_space-name n h = ground (arith, h)

trim_right-name : (s : String) → all_in_name s ≡ true → trim_right s ≡ s
trim_right-name String.[] h = refl
trim_right-name (String.◌∷◌ c s) h =
    let visible = is_space-name (code c) (ground (arith, h)) in
    rw (visible, trim_right-name s (ground (arith, h))) refl

trim_space-name : (s : String) → all_in_name s ≡ true → trim_space s ≡ s
unfolding trim_space
trim_space-name String.[] h = refl
trim_space-name (String.◌∷◌ c s) h =
    let visible = is_space-name (code c) (ground (arith, h)) in
    rw visible (trim_right-name (String.◌∷◌ c s) h)

all_in_name-append :
    (s t : String)
    → all_in_name s ≡ true
    → all_in_name t ≡ true
    → all_in_name (Prim.Native.String.◌++◌ s t) ≡ true
all_in_name-append String.[] t h k = ap all_in_name (λ i. append.nil t i) ∙ k
all_in_name-append (String.◌∷◌ c s) t h k =
    ap all_in_name (λ i. append.cons c s t i)
    ∙ ground (arith, h, all_in_name-append s t (ground (arith, h)) k)

rest_of_name-plain :
    (n : ℕ) (name s t : String)
    → all_in_name name ≡ true
    → rest_of_name n name s ≡ some t
    → all_in_name t ≡ true
unfolding rest_of_name
rest_of_name-plain n name String.[] t plain h = absurd (ground (arith, h))
rest_of_name-plain zero name (String.◌∷◌ c s) t plain h = ground (arith, plain, h)
rest_of_name-plain (suc n) name (String.◌∷◌ c s) t plain h = elim (Bool-cases (in_name (code c))) [
  | inr other ↦ ground (arith, other, plain, h)
  | inl fits ↦
      let longer = Prim.Native.String.◌++◌ name (String.◌∷◌ c String.[]) in
      let more = all_in_name-append name (String.◌∷◌ c String.[]) plain (ground (arith, fits)) in
      rest_of_name-plain n longer s t more (ground (arith, fits, h))
]

pub tenant_of_file-plain : (f t : String) → tenant_of_file f ≡ some t → trim_space t ≡ t
unfolding tenant_of_file
tenant_of_file-plain String.[] t h = absurd (ground (arith, h))
tenant_of_file-plain (String.◌∷◌ c s) t h =
    let fits : is_lower (code c) ≡ true = ground (arith, h) in
    trim_space-name t (
      rest_of_name-plain 62 (String.◌∷◌ c String.[]) s t (ground (arith, fits))
        (ground (arith, fits, h)))
