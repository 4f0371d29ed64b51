-- ===== src/StepIdentity/Bounds.antt =====
-- go/internal/stepidentity/stepidentity.go: which numbers a hash can bind.
use mathlib.Core.Logic.{◌↔◌}
use aeon_agent_harness.Prelude.{
  ℕ, suc, ◌+◌, ◌≤◌, ◌<◌, String, Option, none, some, ◌≡◌, ◌⊎◌, inl, inr, arith, Option-cases,
}
use aeon_agent_harness.Prelude.Int.{ℤ, pos, negsuc, pos_part, neg_part}
use aeon_agent_harness.StepIdentity.{
  Value, json_number, float64, int64, uint64, a_map, a_slice, other, Fields, no_fields, field,
  Elements, no_elements, element, Step, max_exact_integer, max_exact_bits, infinity_bits, abs_bits,
  IntegerTooLarge, Conversions, check_float_magnitude, check_int_magnitude, check_read, under_key,
  at_index, check_integer_bounds, check_fields, check_elements, first_of, refusal, canonical_json,
  step_hash,
}

-- Of magnitude 2^53 at most.
abbrev pub FitsInt : ℤ → Type 0
FitsInt i = pos_part i + neg_part i ≤ max_exact_integer

-- Of magnitude less than 2^53, or not a number.
abbrev pub FitsFloat : ℕ → Type 0
FitsFloat bits = (abs_bits bits < max_exact_bits) ⊎ (infinity_bits < abs_bits bits)

abbrev FitsRead : Option ℤ → Option ℕ → Type 0
FitsRead (some i) _ = FitsInt i
FitsRead none (some v) = FitsFloat v
FitsRead none none = Unit {0}

check_int_magnitude-none :
    (path literal : String) (i : ℤ) → (check_int_magnitude path literal i ≡ none) ↔ FitsInt i
unfolding check_int_magnitude
check_int_magnitude-none path literal (pos n) = ground arith
check_int_magnitude-none path literal (negsuc n) = ground arith

check_float_magnitude-none :
    (path literal : String) (v : ℕ) → (check_float_magnitude path literal v ≡ none) ↔ FitsFloat v
unfolding check_float_magnitude
check_float_magnitude-none path literal v = ground arith

refusal-none :
    (key : String) (o : Option IntegerTooLarge) (rest : Option (String × IntegerTooLarge))
    → (refusal (first_of key o rest) ≡ none) ↔ ((o ≡ none) × (refusal rest ≡ none))
refusal-none key none rest = ground arith
refusal-none key (some e) none = ground arith
refusal-none key (some e) (some (k, e')) = ground arith

check_read-none :
    (path literal : String) (i : Option ℤ) (v : Option ℕ)
    → (check_read path literal i v ≡ none) ↔ FitsRead i v
unfolding check_read
check_read-none path literal (some i) v = check_int_magnitude-none path literal i
check_read-none path literal none (some v) = check_float_magnitude-none path literal v
check_read-none path literal none none = ground arith

module _ (cv : Conversions) where
  -- No number in the value is read as too large to be bound. A literal that neither conversion reads
  -- is let through.
  unfoldable mutual
    pub Fits : Value → Type 0
    Fits (json_number n) = FitsRead (cv.to_int64 n) (cv.to_float64 n)
    Fits (float64 v) = FitsFloat v
    Fits (int64 i) = FitsInt i
    Fits (uint64 n) = n ≤ max_exact_integer
    Fits (a_map fs) = FieldsFit fs
    Fits (a_slice xs) = ElementsFit xs
    Fits other = Unit {0}

    pub FieldsFit : Fields → Type 0
    FieldsFit no_fields = Unit {0}
    FieldsFit (field key v fs) = Fits v × FieldsFit fs

    pub ElementsFit : Elements → Type 0
    ElementsFit no_elements = Unit {0}
    ElementsFit (element v xs) = Fits v × ElementsFit xs

  mutual
    unfolding check_integer_bounds Fits

    bounds_iff : (path : String) (v : Value) → (check_integer_bounds cv path v ≡ none) ↔ Fits v
    bounds_iff path (json_number n) = check_read-none path n (cv.to_int64 n) (cv.to_float64 n)
    bounds_iff path (float64 v) = check_float_magnitude-none path _ v
    bounds_iff path (int64 i) = check_int_magnitude-none path _ i
    bounds_iff path (uint64 n) = ground arith
    bounds_iff path (a_map fs) = fields_iff path fs
    bounds_iff path (a_slice xs) = elements_iff path 0 xs
    bounds_iff path other = ground arith

    fields_iff :
        (path : String) (fs : Fields) → (refusal (check_fields cv path fs) ≡ none) ↔ FieldsFit fs
    fields_iff path no_fields = ground arith
    fields_iff path (field key v fs) = ground (
      arith,
      refusal-none key (check_integer_bounds cv (under_key path key) v) (check_fields cv path fs),
      bounds_iff (under_key path key) v,
      fields_iff path fs,
    )

    elements_iff :
        (path : String) (i : ℕ) (xs : Elements)
        → (check_elements cv path i xs ≡ none) ↔ ElementsFit xs
    elements_iff path i no_elements = ground arith
    elements_iff path i (element v xs) =
        ground (arith, bounds_iff (at_index path i) v, elements_iff path (suc i) xs)

  -- The check passes exactly if no number in the value, at any depth, is read as an integer of
  -- magnitude over 2^53 or as a float of magnitude 2^53 or more. A literal of json.Number counts as
  -- the integer that it is read as, or else as the float; one that is read as neither, such as 1e400,
  -- passes, and so does NaN.
  pub check_integer_bounds-Fits :
      (path : String) (v : Value) → (check_integer_bounds cv path v ≡ none) ↔ Fits v
  check_integer_bounds-Fits path v = bounds_iff path v

  -- A step has a hash only if no number in its arguments is read as too large to be bound.
  pub step_hash-Fits :
      (marshal : Step → Option String) (transform : String → Option String) (sum : String → String)
      (s : Step) (h : String)
      → step_hash cv marshal transform sum s ≡ inr h
      → Fits s.tool_args
  unfolding step_hash canonical_json
  step_hash-Fits marshal transform sum s h is =
      elim (Option-cases (check_integer_bounds cv "tool_args" s.tool_args)) [
        | inl fine ↦ (check_integer_bounds-Fits "tool_args" s.tool_args).0 fine
        | inr (e, refused) ↦ absurd (ground (arith, refused, is))
      ]
