-- ===== src/Json.antt =====
-- JSON values, and Go's json.RawMessage as what its bytes parse to.
use Prim.Native.Char.{code}
use aeon_agent_harness.Prelude.{
  ℕ, ◌+◌, String, Bool, true, false, ◌&&◌, List, [], ◌∷◌, leb, if◌then◌else◌, ◌==◌, nat_comparable,
  string_comparable, Option, none, some,
}

-- A number keeps its literal. An object keeps its members in order, a repeated key included.
mutual
  pub data Json : Type 0 where
    null : Json
    boolean : Bool → Json
    number : String → Json
    text : String → Json
    array : Items → Json
    object : Members → Json

  pub data Items : Type 0 where
    no_items : Items
    item : Json → Items → Items

  pub data Members : Type 0 where
    no_members : Members
    member : String → Json → Members → Members

-- A raw message: no bytes at all, bytes that json.Valid refuses, or the text of a value.
pub data RawMessage : Type 0 where
  absent : RawMessage
  malformed : String → RawMessage
  valid : Json → RawMessage

-- len(p) == 0
abbrev pub is_absent : RawMessage → Bool
is_absent absent = true
is_absent _ = false

-- json.Valid(p)
abbrev pub is_valid_json : RawMessage → Bool
is_valid_json (valid j) = true
is_valid_json _ = false

abbrev pub fold_code : ℕ → ℕ
fold_code c =
    if leb b'A' c && leb c b'Z'
    then c + 32
    else if c == 0x17f
    then b's'
    else if c == 0x212a
    then b'k'
    else c

abbrev fold_codes : String → List ℕ
fold_codes String.[] = []
fold_codes (String.◌∷◌ c s) = fold_code (code c) ∷ fold_codes s

abbrev codes_eq : List ℕ → List ℕ → Bool
codes_eq [] [] = true
codes_eq (a ∷ xs) (b ∷ ys) = a == b && codes_eq xs ys
codes_eq _ _ = false

-- encoding/json matches an object's key with a struct's field without regard to case, and takes
-- U+017F for s and U+212A for k.
unfoldable pub names_field : String → String → Bool
names_field key field = codes_eq (fold_codes key) (fold_codes field)

-- A key of a decoded object: the last member of that name.
abbrev pub member_of : String → Members → Option Json → Option Json
member_of key no_members found = found
member_of key (member k j ms) found = member_of key ms (if k == key then some j else found)

-- m[key] with a type assertion to string, "" where it fails.
abbrev pub string_member : String → Members → String
string_member key ms = elim (member_of key ms none) [ none ↦ "" | some (text s) ↦ s | some _ ↦ "" ]

-- A type assertion to a map, which gives an empty one where it fails.
abbrev pub as_map : Option Json → Members
as_map (some (object ms)) = ms
as_map _ = no_members
