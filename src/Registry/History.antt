-- ===== src/Registry/History.antt =====
-- A version's lifecycle along a sequence of calls.
use mathlib.Core.Path.{subst}
use aeon_agent_harness.Prelude.{
  String, true, false, some, List, [], ◌∷◌, ◌≡◌, ◌≢◌, refl, ◌⊎◌, inl, inr, arith, any, ◌==◌,
  string_comparable, eq_iff, Bool-cases, some_inj, sym, ap, ◌∙◌,
}
use aeon_agent_harness.Registry.{
  AgentRecord, find_agent, valid_transition, lifecycle_released, lifecycle_retired,
}
use aeon_agent_harness.Registry.Lifecycle.{
  Call, creates, transitions, quarantines, unquarantines, run_call, run_calls, gate_allows, Moves,
  transition-Moves, quarantine-find, unquarantine-find, create-find, refuse_transition-none,
}

-- Only a version that was released can be quarantined.
abbrev pub QuarantineFits : AgentRecord → Type 0
QuarantineFits a =
    (a.quarantined ≡ false)
    ⊎ ((a.lifecycle ≡ lifecycle_released) ⊎ (a.lifecycle ≡ lifecycle_retired))

valid_transition_later :
    (a b : String)
    → valid_transition a ≡ some b
    → (a ≡ lifecycle_released) ⊎ (a ≡ lifecycle_retired)
    → b ≡ lifecycle_retired
unfolding valid_transition
valid_transition_later a b h late = elim late [
  | inl e ↦ sym (some_inj (ap valid_transition (sym e) ∙ h))
  | inr e ↦ cc (ap valid_transition (sym e) ∙ h)
]

-- The lifecycles that can follow one.
pub data Follows : String → String → Type 0 where
  stays : (s : String) → Follows s s
  moves : {a b c : String} → valid_transition a ≡ some b → Follows b c → Follows a c

module _ (t n v : String) where
  run_call-Moves :
      (c : Call) (rows : List AgentRecord) (a : AgentRecord)
      → find_agent t n v rows ≡ some a
      → QuarantineFits a
      → (b : AgentRecord) × (find_agent t n v (run_call c rows) ≡ some b)
        × Moves (gate_allows c) a b
        × QuarantineFits b
  unfolding run_call
  run_call-Moves (creates f now tenant manifest owner) rows a there fits =
      (a, create-find t n v f now tenant manifest owner rows a there, inl refl, fits)
  run_call-Moves (transitions f now tenant name version target gate) rows a there fits =
      elim (transition-Moves t n v f now tenant name version target gate rows a there) [
        | inl same ↦ (a, same, inl refl, fits)
        | inr (moved, fine) ↦
            let (edge, gated) = refuse_transition-none a.lifecycle target gate fine in
            (
              _,
              moved,
              inr (edge, gated),
              ground (arith, fits, valid_transition_later a.lifecycle target edge),
            )
      ]
  run_call-Moves (quarantines f now tenant name version reason) rows a there fits =
      elim (quarantine-find t n v f now tenant name version reason rows a there) [
        | inl same ↦ (a, same, inl refl, fits)
        | inr (set, released) ↦ (_, set, inl refl, inr (inl released))
      ]
  run_call-Moves (unquarantines f now tenant name version) rows a there fits =
      elim (unquarantine-find t n v f now tenant name version rows a there) [
        | inl same ↦ (a, same, inl refl, fits)
        | inr clear ↦ (_, clear, inl refl, inl refl)
      ]

  -- Along any sequence of calls, whatever fails in them, a registered version stays registered, its
  -- lifecycle follows the transitions that are allowed, and it is quarantined only where it is
  -- Released or Retired, if that was so before. No call interleaves with another here.
  pub find_agent-run_calls :
      (calls : List Call) (rows : List AgentRecord) (a : AgentRecord)
      → find_agent t n v rows ≡ some a
      → QuarantineFits a
      → (b : AgentRecord) × (find_agent t n v (run_calls calls rows) ≡ some b)
        × Follows a.lifecycle b.lifecycle
        × QuarantineFits b
  unfolding run_calls
  find_agent-run_calls [] rows a there fits = (a, there, stays a.lifecycle, fits)
  find_agent-run_calls (c ∷ calls) rows a there fits =
      let (b, found, step, fits') = run_call-Moves c rows a there fits in
      let (z, last, follows, fits'') = find_agent-run_calls calls (run_call c rows) b found fits' in
      (
        z,
        last,
        elim step [
          | inl same ↦ subst (λ s. Follows s z.lifecycle) same follows
          | inr (edge, _) ↦ moves edge follows
        ],
        fits'',
      )

  -- Where a registered version is quarantined only if it is Released or Retired, and is not Released,
  -- it becomes Released in a sequence of calls that do not interleave only if one of them came with a
  -- passing release gate decision.
  pub gate_allows-run_calls :
      (calls : List Call) (rows : List AgentRecord) (a b : AgentRecord)
      → find_agent t n v rows ≡ some a
      → QuarantineFits a
      → a.lifecycle ≢ lifecycle_released
      → find_agent t n v (run_calls calls rows) ≡ some b
      → b.lifecycle ≡ lifecycle_released
      → any gate_allows calls ≡ true
  unfolding run_calls
  gate_allows-run_calls [] rows a b there fits not_yet last released =
      absurd (not_yet (ground (arith, there, last, released)))
  gate_allows-run_calls (c ∷ calls) rows a b there fits not_yet last released =
      let (m, found, step, fits') = run_call-Moves c rows a there fits in
      elim (Bool-cases (m.lifecycle == lifecycle_released)) [
        | inr open_ ↦
            let later =
              gate_allows-run_calls calls (run_call c rows) m b found fits'
                (λ e. ground (arith, e, open_, eq_iff m.lifecycle lifecycle_released)) last
                released in
            ground (arith, later)
        | inl now ↦ ground (arith, now, step, not_yet, eq_iff m.lifecycle lifecycle_released)
      ]
