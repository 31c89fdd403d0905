-- ===== src/Gpio/Debounce.antt =====
-- What a button reports of the levels of its pin.
use open_broadcast_intercom.Base.{
  ℕ, zero, suc, ◌+◌, ◌-◌, ◌≤◌, ◌≡◌, refl, ◌∙◌, ap, Bool, true, not, List, [], ◌∷◌, ◌++◌, arith, leb,
  Bool-cases, inl, inr, ◌⊎◌, ◌&&◌,
}
use open_broadcast_intercom.Control.Same.{bool_beq}
use open_broadcast_intercom.Gpio.{
  GpioButton, ButtonRuntime, endpoints_for_event, poll_button, run_button,
}

-- the same level at each of these times
abbrev pub steady : Bool → List ℕ → List (ℕ × Bool)
steady level [] = []
steady level (t ∷ times) = (t, level) ∷ steady level times

abbrev after_readings : ℕ → ButtonRuntime → List (ℕ × Bool) → ButtonRuntime
after_readings debounce button readings = (run_button debounce button readings).1

steady_candidate :
    (debounce : ℕ) (button : ButtonRuntime) (level : Bool) (times : List ℕ) (last : ℕ)
    → button.candidate_pressed ≡ level
    → button.candidate_since + debounce ≤ last
    → (after_readings debounce button (steady level times ++ (last, level) ∷ [])).stable_pressed
      ≡ level
unfolding run_button poll_button
steady_candidate debounce button level [] last c d = ground arith
steady_candidate debounce button level (t ∷ times) last c d =
    ground
      (arith, steady_candidate debounce (poll_button debounce button t level).1 level times last)

-- A level that is read at two times that lie at least the debounce time apart, and at each reading
-- between, is the button's level after the second.
pub held_level_reported :
    (debounce : ℕ) (button : ButtonRuntime) (level : Bool) (first : ℕ) (times : List ℕ) (last : ℕ)
    → button.candidate_since ≤ first
    → first + debounce ≤ last
    → (run_button debounce button
        (steady level (first ∷ times) ++ (last, level) ∷ [])).1.stable_pressed
      ≡ level
unfolding run_button poll_button
held_level_reported debounce button level first times last since apart =
    ground (
      arith,
      steady_candidate debounce (poll_button debounce button first level).1 level times last,
    )

-- the posts of a button that reports this many changes, from this level on
abbrev pub alternate : GpioButton → Bool → ℕ → List (List ℕ)
alternate button level zero = []
alternate button level (suc n) =
    endpoints_for_event button (not level) ++ alternate button (not level) n

abbrev pub flip : ℕ → Bool → Bool
flip zero level = level
flip (suc n) level = flip n (not level)

-- One reading changes nothing that is reported, or reports the other level.
abbrev Quiet : List (List ℕ) × ButtonRuntime → ButtonRuntime → Type 0
Quiet (posted, after) button =
    (posted ≡ []) × (after.stable_pressed ≡ button.stable_pressed) × (after.config ≡ button.config)

abbrev Reports : List (List ℕ) × ButtonRuntime → ButtonRuntime → Type 0
Reports (posted, after) button =
    (posted ≡ endpoints_for_event button.config (not button.stable_pressed))
    × (after.stable_pressed ≡ not button.stable_pressed)
    × (after.config ≡ button.config)

reading_cases :
    (debounce : ℕ) (button : ButtonRuntime) (now : ℕ) (pressed : Bool)
    → Quiet (poll_button debounce button now pressed) button
      ⊎ Reports (poll_button debounce button now pressed) button
unfolding poll_button
reading_cases debounce button now pressed =
    elim (Bool-cases (not (bool_beq pressed button.candidate_pressed))) [
      | inl c ↦ rw c (inl (refl, refl, refl))
      | inr c ↦
          rw c
            (elim (Bool-cases (
              not (bool_beq pressed button.stable_pressed)
              && leb debounce (now - button.candidate_since))) [
                | inl s ↦ rw s (
                    inr (
                      ap (endpoints_for_event button.config)
                          (other pressed button.stable_pressed _ s),
                      other pressed button.stable_pressed _ s,
                      refl,
                    ))
                | inr s ↦ rw s (inl (refl, refl, refl))
              ])
    ]
  where
    other : (a b c : Bool) → (not (bool_beq a b) && c) ≡ true → a ≡ not b
    other a b c h = ground arith

abbrev pub Alternates : List (List ℕ) × ButtonRuntime → ButtonRuntime → Type 0
Alternates (posted, after) button =
    (n : ℕ) × (posted ≡ alternate button.config button.stable_pressed n)
    × (after.stable_pressed ≡ flip n button.stable_pressed)

-- Whatever is read, the button reports changes only: it posts what belongs to the level that it did
-- not have, then what belongs to the other, and so on, up to the level that it has in the end.
pub changes_alternate :
    (debounce : ℕ) (button : ButtonRuntime) (readings : List (ℕ × Bool))
    → Alternates (run_button debounce button readings) button
unfolding run_button
changes_alternate debounce button [] = (0, refl, refl)
changes_alternate debounce button ((now, pressed) ∷ readings) =
    let next = poll_button debounce button now pressed in
    let ih = changes_alternate debounce next.1 readings in
    elim (reading_cases debounce button now pressed) [
      | inl (q, s, c) ↦
          (ih.0, rw q (ih.1 ∙ λ i. alternate (c i) (s i) ih.0), ih.2 ∙ λ i. flip ih.0 (s i))
      | inr (q, s, c) ↦ (
        suc ih.0,
        λ i. q i ++ (ih.1 ∙ λ j. alternate (c j) (s j) ih.0) i,
        ih.2 ∙ λ i. flip ih.0 (s i),
      )
    ]
