-- ===== src/Examples/Database.antt =====
-- A database for the examples: it stores every value as it is, and two values are the same if they
-- are built alike.
use aeon_agent_harness.Prelude.{
  Bool, true, false, ◌&&◌, some, ◌==◌, string_comparable, bool_comparable, ◌≡◌, refl, arith,
  ==_refl, String, ◌⊎◌, inl, inr,
}
use aeon_agent_harness.Json.{
  Json, null, boolean, number, text, array, object, Items, no_items, item, Members, no_members,
  member,
}
use aeon_agent_harness.Checkpoint.Outcome.Reordered.{InMembers, HasKey}
use aeon_agent_harness.Journal.{Jsonb}
use aeon_agent_harness.Journal.Envelopes.{KeepsMembers}

unfoldable mutual
  pub json_same : Json → Json → Bool
  json_same null null = true
  json_same (boolean a) (boolean b) = a == b
  json_same (number a) (number b) = a == b
  json_same (text a) (text b) = a == b
  json_same (array xs) (array ys) = items_same xs ys
  json_same (object ms) (object ns) = members_same ms ns
  json_same _ _ = false

  pub items_same : Items → Items → Bool
  items_same no_items no_items = true
  items_same (item j xs) (item k ys) = json_same j k && items_same xs ys
  items_same _ _ = false

  pub members_same : Members → Members → Bool
  members_same no_members no_members = true
  members_same (member a j ms) (member b k ns) = a == b && (json_same j k && members_same ms ns)
  members_same _ _ = false

mutual
  unfolding json_same items_same members_same

  pub json_same_refl : (j : Json) → json_same j j ≡ true
  json_same_refl null = refl
  json_same_refl (boolean a) = ==_refl a
  json_same_refl (number a) = ==_refl a
  json_same_refl (text a) = ==_refl a
  json_same_refl (array xs) = items_same_refl xs
  json_same_refl (object ms) = members_same_refl ms

  items_same_refl : (xs : Items) → items_same xs xs ≡ true
  items_same_refl no_items = refl
  items_same_refl (item j xs) = ground (arith, json_same_refl j, items_same_refl xs)

  members_same_refl : (ms : Members) → members_same ms ms ≡ true
  members_same_refl no_members = refl
  members_same_refl (member a j ms) =
      ground (arith, ==_refl a, json_same_refl j, members_same_refl ms)

abbrev pub db : Jsonb
db = record { stored = some; same = json_same; same_refl = json_same_refl }

-- A database that turns the members of an object around.
abbrev pub turned : Members → Members → Members
turned no_members done = done
turned (member key j ms) done = turned ms (member key j done)

abbrev pub turned_value : Json → Json
turned_value (object ms) = object (turned ms no_members)
turned_value j = j

abbrev pub turning : Jsonb
turning = record {
  stored = λ j. some (turned_value j);
  same = json_same;
  same_refl = json_same_refl;
}

InMembers-turned :
    (key : String) (j : Json) (ms done : Members)
    → InMembers key j (turned ms done)
    → InMembers key j ms ⊎ InMembers key j done
InMembers-turned key j no_members done there = inr there
InMembers-turned key j (member k i ms) done there =
    elim (InMembers-turned key j ms (member k i done) there) [
      | inl later ↦ inl (inr later)
      | inr (inl here) ↦ inl (inl here)
      | inr (inr before) ↦ inr before
    ]

HasKey-turned :
    (key : String) (ms done : Members)
    → HasKey key ms ⊎ HasKey key done
    → HasKey key (turned ms done)
HasKey-turned key no_members done (inl there) = absurd there
HasKey-turned key no_members done (inr there) = there
HasKey-turned key (member k i ms) done (inl (inl here)) =
    HasKey-turned key ms (member k i done) (inr (inl here))
HasKey-turned key (member k i ms) done (inl (inr later)) =
    HasKey-turned key ms (member k i done) (inl later)
HasKey-turned key (member k i ms) done (inr before) =
    HasKey-turned key ms (member k i done) (inr (inr before))

pub turning-KeepsMembers : KeepsMembers turning
turning-KeepsMembers ms v h = (
  turned ms no_members,
  ground (arith, h),
  (
    (λ key j there. elim (InMembers-turned key j ms no_members there) [
      | inl inside ↦ (j, inside, (λ s is. is))
      | inr nothing ↦ absurd nothing
    ]),
    (λ key there. HasKey-turned key ms no_members (inl there)),
  ),
)
