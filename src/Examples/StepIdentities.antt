-- ===== src/Examples/StepIdentities.antt =====
-- Arguments at the bound, and past it.
use mathlib.Core.Logic.{◌↔◌}
use aeon_agent_harness.Prelude.{true, false, none, some, ◌≡◌, refl}
use aeon_agent_harness.Prelude.Int.{ℤ, pos}
use aeon_agent_harness.Prelude.Text.{decimal}
use aeon_agent_harness.StepIdentity.{
  Value, json_number, float64, int64, a_map, a_slice, no_fields, field, no_elements, element,
  Conversions, max_exact_bits, check_integer_bounds, check_read, check_int_magnitude,
  check_float_magnitude, format_big_float,
}
use aeon_agent_harness.StepIdentity.Bounds.{Fits, check_integer_bounds-Fits}

abbrev conversions : Conversions
conversions = record {
  to_int64 = λ n. none;
  to_float64 = λ n. some 0x3ff8000000000000;
  format_f = λ v. "f";
  format_g = λ v. "g";
}

abbrev arguments : ℤ → Value
arguments i =
    a_map (
      field "a" (json_number "1.5") (field "b" (a_slice (element (int64 i) no_elements)) no_fields))

at_the_bound :
    check_integer_bounds conversions "tool_args" (arguments (pos 9007199254740992)) ≡ none
unfolding check_integer_bounds check_read check_int_magnitude check_float_magnitude
at_the_bound = refl

past_the_bound :
    check_integer_bounds conversions "tool_args" (arguments (pos 9007199254740993))
    ≡ some (record { path = "tool_args.b[0]"; value = "9007199254740993"; float = false })
unfolding check_integer_bounds check_read check_int_magnitude check_float_magnitude decimal
past_the_bound = refl

float_at_the_bound :
    check_integer_bounds conversions "n" (float64 max_exact_bits)
    ≡ some (record { path = "n"; value = "f"; float = true })
unfolding check_integer_bounds check_float_magnitude format_big_float
float_at_the_bound = refl

check_integer_bounds-Fits_example :
    (check_integer_bounds conversions "tool_args" (arguments (pos 7)) ≡ none)
    ↔ Fits conversions (arguments (pos 7))
check_integer_bounds-Fits_example =
    check_integer_bounds-Fits conversions "tool_args" (arguments (pos 7))
