-- ===== src/ModelGateway/Messages.antt =====
-- go/internal/modelgateway/gateway.go and unsendable.go: which answers are of use, and which turns are
-- not sent.
use Prim.Native.Char.{code}
use aeon_agent_harness.Prelude.{
  ℕ, suc, String, Bool, true, false, ◌&&◌, not, Option, none, some, if◌then◌else◌, ◌==◌,
  string_comparable, nat_comparable,
}
use aeon_agent_harness.Prelude.Text.{is_space}
use aeon_agent_harness.Json.{
  Json, null, array, object, Items, no_items, item, Members, no_members, member, member_of, as_map,
  string_member,
}

-- strings.TrimSpace(s) == ""
unfoldable pub is_blank : String → Bool
is_blank String.[] = true
is_blank (String.◌∷◌ c s) = is_space (code c) && is_blank s

-- A type assertion to a slice, which gives an empty one where it fails.
abbrev as_items : Option Json → Items
as_items (some (array xs)) = xs
as_items _ = no_items

abbrev first_item : Items → Option Json
first_item no_items = none
first_item (item j _) = some j

abbrev is_no_items : Items → Bool
is_no_items no_items = true
is_no_items (item _ _) = false

-- What a message that is not cut short lacks.
abbrev judge_message : Members → String
judge_message message =
    if not (is_blank (string_member "content" message))
    then ""
    else if not (is_no_items (as_items (member_of "tool_calls" message none)))
    then ""
    else if not (is_blank (string_member "reasoning_content" message))
    then "provider returned only reasoning and no answer"
    else "provider returned empty content"

abbrev judge_choice : Members → String
judge_choice choice =
    if string_member "finish_reason" choice == "length"
    then ""
    else judge_message (as_map (member_of "message" choice none))

-- emptyAnswer: "" for an answer that can be used.
unfoldable pub empty_answer : Members → String
unfolding is_blank
empty_answer output =
    let choices = as_items (member_of "choices" output none) in
    if is_no_items choices
    then "provider returned no choices"
    else judge_choice (as_map (first_item choices))

-- m[key] = j
abbrev pub set_member : String → Json → Members → Members
set_member key j no_members = member key j no_members
set_member key j (member k x ms) =
    let rest = set_member key j ms in if k == key then member k j ms else member k x rest

-- A key that is there with a value other than null.
abbrev has_value : Option Json → Bool
has_value none = false
has_value (some null) = false
has_value (some _) = true

unfoldable pub unsendable_assistant_turn : Members → Bool
unsendable_assistant_turn m =
    string_member "role" m == "assistant"
    && (not (has_value (member_of "content" m none))
        && is_no_items (as_items (member_of "tool_calls" m none)))

abbrev pub is_unsendable : Json → Bool
is_unsendable (object m) = unsendable_assistant_turn m
is_unsendable _ = false

unfoldable pub kept_items : Items → Items
kept_items no_items = no_items
kept_items (item j xs) = let rest = kept_items xs in if is_unsendable j then rest else item j rest

unfoldable pub dropped_items : Items → ℕ
dropped_items no_items = 0
dropped_items (item j xs) =
    let rest = dropped_items xs in if is_unsendable j then suc rest else rest

abbrev with_messages : Members → Items → Members × ℕ
with_messages input raw =
    if dropped_items raw == 0
    then (input, 0)
    else (set_member "messages" (array (kept_items raw)) input, dropped_items raw)

-- dropUnsendableAssistantTurns: the input after it, and how many turns it dropped.
unfoldable pub drop_unsendable_assistant_turns : Members → Members × ℕ
drop_unsendable_assistant_turns input = elim (member_of "messages" input none) [
  | some (array raw) ↦ with_messages input raw
  | none ↦ (input, 0)
  | some _ ↦ (input, 0)
]
