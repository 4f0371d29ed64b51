-- ===== src/StepIdentity.antt =====
-- go/internal/stepidentity/stepidentity.go: the hash that binds an approval to a step. A float64 is
-- its bits.
pub mod Bounds
use Prim.Native.Char.{code}
use Prim.Native.String.{compare}
use Prim.Native.Nat.{Ordering}
use aeon_agent_harness.Prelude.{
  ℕ, zero, suc, ◌+◌, ◌*◌, ◌-◌, ◌/◌, ◌%◌, ◌^◌, String, Bool, true, false, ◌&&◌, not, Option, none,
  some, List, [], ◌∷◌, ◌++◌, ◌⊎◌, inl, inr, ltb, leb, if◌then◌else◌, ◌==◌, nat_comparable,
  string_comparable,
}
use aeon_agent_harness.Prelude.Int.{ℤ, pos, negsuc, ltb_ℤ}
use aeon_agent_harness.Prelude.Text.{decimal}

-- What a decoded argument may be. A map's fields are in any order, and no key stands twice.
mutual
  pub data Value : Type 0 where
    -- A json.Number, with its literal.
    json_number : String → Value
    float64 : ℕ → Value
    int64 : ℤ → Value
    uint64 : ℕ → Value
    a_map : Fields → Value
    a_slice : Elements → Value
    -- A string, a Boolean or nil.
    other : Value

  pub data Fields : Type 0 where
    no_fields : Fields
    field : String → Value → Fields → Fields

  pub data Elements : Type 0 where
    no_elements : Elements
    element : Value → Elements → Elements

pub record Step : Type 0 where
  pub step_id : String
  pub tool_name : String
  pub tool_args : Value

-- 2^53
abbrev pub max_exact_integer : ℕ
max_exact_integer = 9007199254740992

pub record IntegerTooLarge : Type 0 where
  pub path : String
  pub value : String
  pub float : Bool

-- float64(2^53), and the infinity, above which is no number
abbrev pub max_exact_bits : ℕ
max_exact_bits = 0x4340000000000000

abbrev pub infinity_bits : ℕ
infinity_bits = 0x7ff0000000000000

-- math.Abs clears the sign, the 64th bit.
abbrev pub abs_bits : ℕ → ℕ
abs_bits bits = bits % 0x8000000000000000

-- v != math.Trunc(v): 1023 is the exponent of 1, and from 1075 on a float has no fraction.
abbrev is_fraction : ℕ → Bool
is_fraction bits =
    let m = abs_bits bits in
    let exponent = m / 2 ^ 52 in
    if ltb infinity_bits m
    then true
    else if ltb exponent 1023
    then not (m == 0)
    else if leb 1075 exponent
    then false
    else not (m % 2 ^ (1075 - exponent) == 0)

-- math.Abs(v) < 2^53 and math.Abs(v) >= 2^53; both are false for NaN.
abbrev is_below : ℕ → Bool
is_below bits = ltb (abs_bits bits) max_exact_bits

abbrev pub is_at_least : ℕ → Bool
is_at_least bits = leb max_exact_bits (abs_bits bits) && leb (abs_bits bits) infinity_bits

unfoldable pub check_float_magnitude : String → String → ℕ → Option IntegerTooLarge
check_float_magnitude path literal v =
    if is_fraction v && is_below v
    then none
    else if is_at_least v
    then some (record { path = path; value = literal; float = true })
    else none

abbrev pub is_large : ℤ → Bool
is_large (pos n) = ltb max_exact_integer n
is_large (negsuc n) = ltb max_exact_integer (suc n)

unfoldable pub check_int_magnitude : String → String → ℤ → Option IntegerTooLarge
check_int_magnitude path literal v =
    if is_large v then some (record { path = path; value = literal; float = false }) else none

-- Strings as Go orders them, by their bytes.
abbrev string_lt : String → String → Bool
string_lt a b = elim (compare a b) [ Ordering.lt ↦ true | _ ↦ false ]

-- Of two refusals under keys, that of the key that sort.Strings puts first.
abbrev pub first_of :
    String
    → Option IntegerTooLarge
    → Option (String × IntegerTooLarge)
    → Option (String × IntegerTooLarge)
first_of key none rest = rest
first_of key (some e) none = some (key, e)
first_of key (some e) (some (k, e')) = if string_lt k key then some (k, e') else some (key, e)

abbrev pub refusal : Option (String × IntegerTooLarge) → Option IntegerTooLarge
refusal none = none
refusal (some (_, e)) = some e

abbrev int_text : ℤ → String
int_text (pos n) = decimal n
int_text (negsuc n) = Prim.Native.String.◌++◌ "-" (decimal (suc n))

abbrev pub under_key : String → String → String
under_key path key = Prim.Native.String.◌++◌ path (Prim.Native.String.◌++◌ "." key)

abbrev pub at_index : String → ℕ → String
at_index path i =
    Prim.Native.String.◌++◌ path
      (Prim.Native.String.◌++◌ "[" (Prim.Native.String.◌++◌ (decimal i) "]"))

-- The library's conversions: json.Number's Int64 and Float64, `none` for an error, and the formats
-- 'f' and 'g' of strconv.FormatFloat.
pub record Conversions : Type 0 where
  pub to_int64 : String → Option ℤ
  pub to_float64 : String → Option ℕ
  pub format_f : ℕ → String
  pub format_g : ℕ → String

-- 1e18
abbrev large_bits : ℕ
large_bits = 0x43abc16d674ec800

unfoldable pub format_big_float : Conversions → ℕ → String
format_big_float cv v = if ltb (abs_bits v) large_bits then cv.format_f v else cv.format_g v

-- A json.Number, as what its two conversions give.
unfoldable pub check_read : String → String → Option ℤ → Option ℕ → Option IntegerTooLarge
check_read path n (some i) _ = check_int_magnitude path n i
check_read path n none (some v) = check_float_magnitude path n v
check_read path n none none = none

module _ (cv : Conversions) where
  unfoldable mutual
    unfolding format_big_float

    pub check_integer_bounds : String → Value → Option IntegerTooLarge
    check_integer_bounds path (json_number n) = check_read path n (cv.to_int64 n) (cv.to_float64 n)
    check_integer_bounds path (float64 v) = check_float_magnitude path (format_big_float cv v) v
    check_integer_bounds path (int64 i) = check_int_magnitude path (int_text i) i
    check_integer_bounds path (uint64 n) =
        if ltb max_exact_integer n
        then some (record { path = path; value = decimal n; float = false })
        else none
    check_integer_bounds path (a_map fs) = refusal (check_fields path fs)
    check_integer_bounds path (a_slice xs) = check_elements path 0 xs
    check_integer_bounds path other = none

    -- The walk in the order of the keys stops at the least key that is refused.
    pub check_fields : String → Fields → Option (String × IntegerTooLarge)
    check_fields path no_fields = none
    check_fields path (field key v fs) =
        first_of key (check_integer_bounds (under_key path key) v) (check_fields path fs)

    pub check_elements : String → ℕ → Elements → Option IntegerTooLarge
    check_elements path i no_elements = none
    check_elements path i (element v xs) = elim (check_integer_bounds (at_index path i) v) [
      | some e ↦ some e
      | none ↦ check_elements path (suc i) xs
    ]

  pub data IdentityError : Type 0 where
    too_large : IntegerTooLarge → IdentityError
    not_encoded not_canonical : IdentityError

  -- `marshal` is json.Marshal of the step and `transform` jcs.Transform.
  unfoldable pub canonical_json :
      (Step → Option String) → (String → Option String) → Step → IdentityError ⊎ String
  canonical_json marshal transform s = elim (check_integer_bounds "tool_args" s.tool_args) [
    | some e ↦ inl (too_large e)
    | none ↦ elim (marshal s) [
      | none ↦ inl not_encoded
      | some raw ↦ elim (transform raw) [
        | none ↦ inl not_canonical
        | some canonical ↦ inr canonical
      ]
    ]
  ]

  -- `sum` is the SHA-256 in hexadecimal.
  unfoldable pub step_hash :
      (Step → Option String)
      → (String → Option String)
      → (String → String)
      → Step
      → IdentityError ⊎ String
  step_hash marshal transform sum s = elim (canonical_json marshal transform s) [
    | inl why ↦ inl why
    | inr canonical ↦ inr (sum canonical)
  ]
