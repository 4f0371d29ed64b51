-- ===== src/Prelude/Text.antt =====
-- Decimal numbers, and the characters of a tenant's name.
use Prim.Native.Char.{code}
use Prim.Native.Nat.{ℕ, zero, suc, ◌/◌, ◌%◌}
use Prim.Native.String.{String, ◌++◌}
use mathlib.Core.Option.{Option, none, some}
use mathlib.Core.Bool.{Bool, ◌&&◌, ◌||◌}
use aeon_agent_harness.Prelude.Tests.{
  if◌then◌else◌, ltb, leb, ◌==◌, nat_comparable, string_comparable,
}

abbrev digit : ℕ → String
digit n =
    if ltb n 1
    then "0"
    else if ltb n 2
    then "1"
    else if ltb n 3
    then "2"
    else if ltb n 4
    then "3"
    else if ltb n 5
    then "4"
    else if ltb n 6
    then "5"
    else if ltb n 7
    then "6"
    else if ltb n 8
    then "7"
    else if ltb n 9
    then "8"
    else "9"

-- A number has no more digits than its successor counts, so that fuel is enough.
digits_of : ℕ → ℕ → String
digits_of zero n = ""
digits_of (suc fuel) n =
    let more = digits_of fuel (n / 10) ++ digit (n % 10) in if ltb n 10 then digit n else more

-- fmt's %d of a number that is not negative.
unfoldable pub decimal : ℕ → String
unfolding digits_of
decimal n = digits_of (suc n) n

-- [a-z]
abbrev pub is_lower : ℕ → Bool
is_lower letter = leb b'a' letter && leb letter b'z'

-- [a-z0-9-]
abbrev pub in_name : ℕ → Bool
in_name c = is_lower c || (leb b'0' c && leb c b'9') || c == b'-'

-- unicode.IsSpace
abbrev pub is_space : ℕ → Bool
is_space c =
    (leb 9 c && leb c 13)
    || c == 0x20
    || c == 0x85
    || c == 0xa0
    || c == 0x1680
    || (leb 0x2000 c && leb c 0x200a)
    || c == 0x2028
    || c == 0x2029
    || c == 0x202f
    || c == 0x205f
    || c == 0x3000

abbrev pub trim_left : String → String
trim_left String.[] = String.[]
trim_left (String.◌∷◌ c s) = if is_space (code c) then trim_left s else String.◌∷◌ c s

abbrev pub trim_right : String → String
trim_right String.[] = String.[]
trim_right (String.◌∷◌ c s) =
    let rest = trim_right s in if is_space (code c) && rest == "" then "" else String.◌∷◌ c rest

-- strings.TrimSpace
unfoldable pub trim_space : String → String
trim_space s = trim_right (trim_left s)

abbrev drop_prefix : String → String → Option String
drop_prefix String.[] s = some s
drop_prefix (String.◌∷◌ p prefix) String.[] = none
drop_prefix (String.◌∷◌ p prefix) (String.◌∷◌ c s) =
    if code p == code c then drop_prefix prefix s else none

-- strings.TrimPrefix
abbrev pub after_text : String → String → String
after_text prefix s = elim (drop_prefix prefix s) [ none ↦ s | some rest ↦ rest ]
