-- ===== src/RunControl/Closes.antt =====
-- When the stream of a run's status closes, and what it says.
use mathlib.Core.Path.{subst}
use aeon_agent_harness.Prelude.{
  ap, String, Bool, true, false, Option, none, some, List, [], ◌∷◌, ◌++◌, ◌⊎◌, inl, inr, ◌≡◌, ◌≢◌,
  refl, arith, any, ◌==◌, string_comparable, eq_iff, Bool-cases, if◌then◌else◌,
}
use aeon_agent_harness.RunControl.Controller.{ControlError}
use aeon_agent_harness.RunControl.Reports.{Status}
use aeon_agent_harness.RunControl.Handlers.{is_terminal}
use aeon_agent_harness.RunControl.Stream.{StreamEvent, status_event, error_event, stream_from}

-- A poll after which there is nothing to wait for.
abbrev pub is_last : ControlError ⊎ Status → Bool
is_last (inl why) = true
is_last (inr s) = is_terminal s.status

abbrev event_of : ControlError ⊎ Status → StreamEvent
event_of (inl why) = error_event why
event_of (inr s) = status_event s

-- The first poll that is the last one.
abbrev pub first_last : List (ControlError ⊎ Status) → Option StreamEvent
first_last [] = none
first_last (poll ∷ polls) =
    let rest = first_last polls in if is_last poll then some (event_of poll) else rest

-- Each event says another status than the one before it, the first another one than `last`.
abbrev pub Changes : String → List StreamEvent → Type 0
Changes last [] = Unit {0}
Changes last (error_event why ∷ events) = Changes last events
Changes last (status_event s ∷ events) = (s.status ≢ last) × Changes s.status events

-- The events end with one, where one is given.
abbrev pub EndsWith : Option StreamEvent → List StreamEvent → Type 0
EndsWith none events = Unit {0}
EndsWith (some e) events = (before : List StreamEvent) × (events ≡ before ++ e ∷ [])

EndsWith-∷ :
    (last : Option StreamEvent) (e : StreamEvent) (events : List StreamEvent)
    → EndsWith last events
    → EndsWith last (e ∷ events)
EndsWith-∷ none e events h = tt
EndsWith-∷ (some x) e events (before, is) = (e ∷ before, ap (λ es. e ∷ es) is)

abbrev pub Closes : String → List (ControlError ⊎ Status) → List StreamEvent × Bool → Type 0
Closes last polls (events, closed) =
    (closed ≡ any is_last polls) × Changes last events × EndsWith (first_last polls) events

-- The stream closes by itself exactly if a poll fails or finds the run at its end; it then ends with
-- the event of the first such poll, its error or the run's status; and it says a status only where
-- it is not the one said before.
pub stream_from-Closes :
    (last : String) (polls : List (ControlError ⊎ Status))
    → is_terminal last ≡ false
    → Closes last polls (stream_from last polls)
unfolding stream_from
stream_from-Closes last [] going = (refl, tt, tt)
stream_from-Closes last (inl why ∷ polls) going = (refl, tt, ([], refl))
stream_from-Closes last (inr s ∷ polls) going = elim (Bool-cases (is_terminal s.status)) [
  | inl at_end ↦
      let differs : (s.status == last) ≡ false =
        ground (arith, at_end, going, eq_iff s.status last) in
      rw (at_end, differs)
        (refl, ((λ e. ground (arith, differs, e, eq_iff s.status last)), tt), ([], refl))
  | inr goes_on ↦
      let (closes, changes, ends) = stream_from-Closes s.status polls goes_on in
      elim (Bool-cases (s.status == last)) [
        | inl same ↦
            let is : s.status ≡ last = ground (arith, same, eq_iff s.status last) in
            rw (goes_on, same)
              (closes, subst (λ l. Changes l (stream_from s.status polls).0) is changes, ends)
        | inr differs ↦
            rw (goes_on, differs)
              (
                closes,
                ((λ e. ground (arith, differs, e, eq_iff s.status last)), changes),
                EndsWith-∷ (first_last polls) (status_event s) (stream_from s.status polls).0 ends,
              )
      ]
]
