-- ===== src/ModelGateway.antt =====
-- go/internal/modelgateway/gateway.go and unsendable.go: the choice of a model provider.
pub mod Messages
pub mod Bundle
pub mod Routing
pub mod Choice
pub mod Decisions
pub mod Profiles
use Prim.Native.Char.{code}
use aeon_agent_harness.Prelude.{
  ℕ, suc, ◌+◌, String, Bool, true, false, ◌&&◌, ◌||◌, not, Option, none, some, List, [], ◌∷◌, ◌++◌,
  ◌⊎◌, inl, inr, leb, keep, if◌then◌else◌, ◌==◌, ◌≡◌, string_comparable, nat_comparable, All, In,
}
use aeon_agent_harness.Prelude.Dict.{lookup}
use aeon_agent_harness.Prelude.Int.{ℤ, ◌≤ℤ◌}
use aeon_agent_harness.Json.{
  Json, null, text, array, object, Items, no_items, item, Members, no_members, member, member_of,
  string_member,
}

pub record Candidate : Type 0 where
  pub provider : String
  pub model : String
  pub priority : ℤ
  pub in_network : Bool

-- `err` is empty where the attempt succeeded.
pub record AttemptRecord : Type 0 where
  pub provider : String
  pub model : String
  pub err : String
  pub cause : Option String
  pub discarded_output : Option Members

pub record DecisionResult : Type 0 where
  pub provider_used : String
  pub model : String
  pub output : Members
  pub attempts : List AttemptRecord
  pub unsendable_turns_dropped : ℕ

pub data DecideError : Type 0 where
  no_restricted_candidate : DecideError
  all_candidates_failed : List AttemptRecord → DecideError
