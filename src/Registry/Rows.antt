-- ===== src/Registry/Rows.antt =====
-- What the SELECTs find after an INSERT or an UPDATE.
use aeon_agent_harness.Prelude.{
  String, Bool, true, ◌&&◌, none, some, List, [], ◌∷◌, ◌++◌, ◌≡◌, refl, arith, if◌then◌else◌, ◌==◌,
  string_comparable, eq_iff, ==_sym,
}
use aeon_agent_harness.Registry.{AgentRecord, is_agent, find_agent, update_agent}

-- An update that leaves the key alone.
abbrev pub KeepsKey : (AgentRecord → AgentRecord) → Type 0
KeepsKey set =
    (a : AgentRecord)
    → ((set a).tenant_id ≡ a.tenant_id) × ((set a).name ≡ a.name) × ((set a).version ≡ a.version)

unfoldable pub same_agent : String → String → String → String → String → String → Bool
same_agent t n v t' n' v' = t == t' && (n == n' && v == v')

is_agent-set :
    (set : AgentRecord → AgentRecord) (t n v : String) (a : AgentRecord)
    → KeepsKey set
    → is_agent t n v (set a) ≡ is_agent t n v a
unfolding is_agent
is_agent-set set t n v a same = let (p, q, r) = same a in rw (p, q, r) refl

same_agent_sym : (t n v t' n' v' : String) → same_agent t n v t' n' v' ≡ same_agent t' n' v' t n v
unfolding same_agent
same_agent_sym t n v t' n' v' = rw (==_sym t t', ==_sym n n', ==_sym v v') refl

is_agent-same :
    (t n v t' n' v' : String) (a : AgentRecord)
    → is_agent t n v a ≡ true
    → is_agent t' n' v' a ≡ same_agent t n v t' n' v'
unfolding is_agent same_agent
is_agent-same t n v t' n' v' a h =
    let p : a.tenant_id ≡ t = ground (arith, h, eq_iff a.tenant_id t) in
    let q : a.name ≡ n = ground (arith, h, eq_iff a.name n) in
    let r : a.version ≡ v = ground (arith, h, eq_iff a.version v) in rw (p, q, r) refl

module _ (tenant name version : String) where
  pub find_agent-update_agent :
      (set : AgentRecord → AgentRecord) (t n v : String) (rows : List AgentRecord)
      → KeepsKey set
      → find_agent tenant name version (update_agent set t n v rows)
        ≡ elim (find_agent tenant name version rows) [
          | none ↦ none
          | some a ↦ if same_agent t n v tenant name version then some (set a) else some a
        ]
  unfolding find_agent update_agent
  find_agent-update_agent set t n v [] same = refl
  find_agent-update_agent set t n v (a ∷ rows) same = ground (
    arith,
    find_agent-update_agent set t n v rows same,
    is_agent-set set tenant name version a same,
    is_agent-same t n v tenant name version a,
    is_agent-same tenant name version t n v a,
    same_agent_sym t n v tenant name version,
  )

  pub find_agent-append :
      (rows : List AgentRecord) (new : AgentRecord)
      → find_agent tenant name version (rows ++ new ∷ [])
        ≡ elim (find_agent tenant name version rows) [
          | some a ↦ some a
          | none ↦ if is_agent tenant name version new then some new else none
        ]
  unfolding find_agent
  find_agent-append [] new = ground arith
  find_agent-append (a ∷ rows) new = ground (arith, find_agent-append rows new)
