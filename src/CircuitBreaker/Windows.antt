-- ===== src/CircuitBreaker/Windows.antt =====
-- What a window holds after any sequence of outcomes.
use aeon_agent_harness.Prelude.{
  ℕ, zero, suc, ◌+◌, ◌-◌, ◌≤◌, ◌<◌, true, false, List, [], ◌∷◌, ◌++◌, ◌≡◌, refl, arith, ltb, length,
  drop, length-append, if◌then◌else◌, ◌==◌, string_comparable, pair_comparable, Option-cases,
  Bool-cases, eq_iff, inl, inr, sym, ◌∙◌, ap, append_assoc, append-nil,
}
use aeon_agent_harness.Prelude.Dict.{lookup-insert}
use aeon_agent_harness.Prelude.Int.{pos_part}
use aeon_agent_harness.CircuitBreaker.{
  Floats, Observation, Breaker, AgentKey, is_quarantined, record_outcome, judge, slide, window_of,
  last_of_window,
}
use aeon_agent_harness.CircuitBreaker.Trips.{is_quarantined-record_outcome}

module _ {ℓ} {A : Type ℓ} where
  length-drop : (k : ℕ) (xs : List A) → k ≤ length xs → length (drop k xs) + k ≡ length xs
  length-drop zero xs h = omega arith
  length-drop (suc k) [] h = absurd (omega arith)
  length-drop (suc k) (x ∷ xs) h = omega (arith, length-drop k xs)

  drop-append : (k : ℕ) (xs ys : List A) → k ≤ length xs → drop k (xs ++ ys) ≡ drop k xs ++ ys
  drop-append zero xs ys h = refl
  drop-append (suc k) [] ys h = absurd (omega arith)
  drop-append (suc k) (x ∷ xs) ys h = drop-append k xs ys (omega arith)

  drop_next : (k : ℕ) (xs : List A) → drop 1 (drop k xs) ≡ drop (suc k) xs
  drop_next zero xs = refl
  drop_next (suc k) [] = refl
  drop_next (suc k) (x ∷ xs) = drop_next k xs

module _ (fl : Floats) where
  last_of_longer :
      (n : ℕ) (xs : List (Observation fl))
      → ltb n (length xs) ≡ true
      → last_of_window fl n xs ≡ drop (length xs - n) xs
  last_of_longer n xs long = ground (arith, long)

  -- Of the last n and one more, the last n are the last n of all.
  last_of_window_again :
      (n : ℕ) (xs : List (Observation fl)) (o : Observation fl)
      → last_of_window fl n (last_of_window fl n xs ++ o ∷ []) ≡ last_of_window fl n (xs ++ o ∷ [])
  last_of_window_again n xs o = elim (Bool-cases (ltb n (length xs))) [
    | inr short ↦ ground (arith, short)
    | inl long ↦
        let k = length xs - n in
        let above : n < length xs = ground (arith, long) in
        let small : k ≤ length xs = omega arith in
        let dropped = drop k xs ++ o ∷ [] in
        let size : length dropped ≡ suc n =
          omega (arith, length-drop k xs small, length-append (drop k xs) (o ∷ []), above) in
        let more : length (xs ++ o ∷ []) ≡ suc (length xs) =
          omega (arith, length-append xs (o ∷ [])) in
        let one : length dropped - n ≡ 1 = omega (arith, size) in
        let next : suc k ≡ length (xs ++ o ∷ []) - n = omega (arith, more, above) in
        rw (last_of_longer n xs long) (
          last_of_longer n dropped (ground (arith, size))
          ∙ ap (λ m. drop m dropped) one
          ∙ ap (drop 1) (sym (drop-append k xs (o ∷ []) small))
          ∙ drop_next k (xs ++ o ∷ [])
          ∙ ap (λ m. drop m (xs ++ o ∷ [])) next
          ∙ sym (last_of_longer n (xs ++ o ∷ []) (ground (arith, more, above))))
  ]

  -- What a sequence of recorded outcomes makes of a breaker.
  unfoldable pub record_all : List (AgentKey × Observation fl) → Breaker fl → Breaker fl
  record_all [] b = b
  record_all ((key, obs) ∷ events) b = record_all events (record_outcome fl key obs b).0

  -- The outcomes of one version, the oldest first.
  abbrev pub history : AgentKey → List (AgentKey × Observation fl) → List (Observation fl)
  history key [] = []
  history key ((k, obs) ∷ events) =
      if k == key then obs ∷ history key events else history key events

  same_key : (k key : AgentKey) → (k == key) ≡ true → k ≡ key
  same_key (a, b) (c, e) h = ground (arith, h, eq_iff a c, eq_iff b e)

  still_quarantined :
      (k : AgentKey) (obs : Observation fl) (b : Breaker fl) (key : AgentKey)
      → is_quarantined fl b key ≡ true
      → is_quarantined fl (record_outcome fl k obs b).0 key ≡ true
  unfolding record_outcome
  still_quarantined k obs b key h = elim (Bool-cases (is_quarantined fl b k)) [
    | inl shut ↦ ground (arith, shut, h)
    | inr open_ ↦ elim (Bool-cases (k == key)) [
      | inl same ↦
          let is = same_key k key same in
          absurd (ground (arith, ap (is_quarantined fl b) is, h, open_))
      | inr other ↦ is_quarantined-record_outcome fl b k key obs ∙ ground (arith, other, h)
    ]
  ]

  -- A quarantine outlasts any outcomes.
  quarantine_lasts :
      (events : List (AgentKey × Observation fl)) (b : Breaker fl) (key : AgentKey)
      → is_quarantined fl b key ≡ true
      → is_quarantined fl (record_all events b) key ≡ true
  unfolding record_all
  quarantine_lasts [] b key h = h
  quarantine_lasts ((k, obs) ∷ events) b key h =
      quarantine_lasts events (record_outcome fl k obs b).0 key (still_quarantined k obs b key h)

  thresholds-record_outcome :
      (key : AgentKey) (obs : Observation fl) (b : Breaker fl)
      → (record_outcome fl key obs b).0.thresholds ≡ b.thresholds
  unfolding record_outcome
  thresholds-record_outcome key obs b =
      elim (Option-cases (judge fl b.thresholds (slide fl b key obs))) [
        | inl calm ↦ ground (arith, calm)
        | inr (why, trips) ↦ ground (arith, trips)
      ]

  window_of-record_outcome :
      (k key : AgentKey) (obs : Observation fl) (b : Breaker fl)
      → is_quarantined fl b k ≡ false
      → window_of fl (record_outcome fl k obs b).0 key
        ≡ (if k == key then slide fl b k obs else window_of fl b key)
  unfolding record_outcome window_of
  window_of-record_outcome k key obs b open_ =
      elim (Option-cases (judge fl b.thresholds (slide fl b k obs))) [
        | inl calm ↦ ground (arith, calm, open_, lookup-insert k key (slide fl b k obs) b.windows)
        | inr (why, trips) ↦
            ground (arith, trips, open_, lookup-insert k key (slide fl b k obs) b.windows)
      ]

  window_of-record_other :
      (k key : AgentKey) (obs : Observation fl) (b : Breaker fl)
      → (k == key) ≡ false
      → window_of fl (record_outcome fl k obs b).0 key ≡ window_of fl b key
  window_of-record_other k key obs b other = elim (Bool-cases (is_quarantined fl b k)) [
    | inl shut ↦ unfold record_outcome in ground (arith, shut)
    | inr open_ ↦ ground (arith, window_of-record_outcome k key obs b open_, other)
  ]

  open_before :
      (events : List (AgentKey × Observation fl)) (b : Breaker fl) (key : AgentKey)
      → is_quarantined fl (record_all events b) key ≡ false
      → is_quarantined fl b key ≡ false
  open_before events b key h = elim (Bool-cases (is_quarantined fl b key)) [
    | inr open_ ↦ open_
    | inl shut ↦ absurd (ground (arith, quarantine_lasts events b key shut, h))
  ]

  -- While a version is not quarantined, its window is the last outcomes of all that were recorded
  -- for it, as many as the window's size, whatever was recorded for other versions in between.
  pub window_of-record_all :
      (events : List (AgentKey × Observation fl)) (b : Breaker fl) (key : AgentKey)
      (before : List (Observation fl))
      → window_of fl b key ≡ last_of_window fl (pos_part b.thresholds.window_size) before
      → is_quarantined fl (record_all events b) key ≡ false
      → window_of fl (record_all events b) key
        ≡ last_of_window fl (pos_part b.thresholds.window_size) (before ++ history key events)
  unfolding record_all slide
  window_of-record_all [] b key before h calm =
      h ∙ ap (last_of_window fl _) (sym (append-nil before))
  window_of-record_all ((k, obs) ∷ events) b key before h calm =
      let n = pos_part b.thresholds.window_size in
      let after = (record_outcome fl k obs b).0 in
      let size : pos_part after.thresholds.window_size ≡ n =
        ap (λ t. pos_part t.window_size) (thresholds-record_outcome k obs b) in
      elim (Bool-cases (k == key)) [
        | inr other ↦
            let same : window_of fl after key
                ≡ last_of_window fl (pos_part after.thresholds.window_size) before =
              rw size (window_of-record_other k key obs b other ∙ h) in
            ground (arith, window_of-record_all events after key before same calm, size, other)
        | inl same ↦
            let is = same_key k key same in
            let open_ : is_quarantined fl b k ≡ false =
              ap (is_quarantined fl b) is ∙ open_before ((k, obs) ∷ events) b key calm in
            let mine : window_of fl after key ≡ last_of_window fl n (window_of fl b k ++ obs ∷ []) =
              ground (arith, window_of-record_outcome k key obs b open_, same) in
            let more : window_of fl after key
                ≡ last_of_window fl (pos_part after.thresholds.window_size) (before ++ obs ∷ []) =
              rw size (
                mine
                ∙ ap (λ w. last_of_window fl n (w ++ obs ∷ [])) (ap (window_of fl b) is ∙ h)
                ∙ last_of_window_again n before obs) in
            ground (
              arith,
              window_of-record_all events after key (before ++ obs ∷ []) more calm,
              size,
              same,
              append_assoc before (obs ∷ []) (history key events),
            )
      ]
