-- ===== src/Tests/Debouncing.antt =====
-- A talk button on a pin.
use open_broadcast_intercom.Base.{ℕ, ◌≡◌, refl, true, false, [], ◌∷◌, ◌++◌, arith, ok, List, Bool}
use open_broadcast_intercom.Base.Trim.{trim, is_empty, is_whitespace}
use open_broadcast_intercom.Gpio.{
  GpioButton, ButtonRuntime, momentary, talk_button, run_button, default_config, validate_config,
}
use open_broadcast_intercom.Gpio.Debounce.{
  steady, Alternates, held_level_reported, changes_alternate,
}

abbrev director_button : GpioButton
director_button = record {
  name = "director";
  gpio = 27;
  active_low = true;
  mode = momentary;
  action = talk_button "director one";
}

abbrev released : ButtonRuntime
released = record {
  config = director_button;
  stable_pressed = false;
  candidate_pressed = false;
  candidate_since = 0;
}

held_level_reported_example :
    (run_button 30 released (steady true (20 ∷ 40 ∷ []) ++ (60, true) ∷ [])).1.stable_pressed ≡ true
held_level_reported_example =
    held_level_reported 30 released true 20 (40 ∷ []) 60 (omega arith) (omega arith)

abbrev bounce : List (ℕ × Bool)
bounce = (20, true) ∷ (40, false) ∷ (60, true) ∷ (80, true) ∷ (100, true) ∷ (120, false) ∷ []

changes_alternate_example : Alternates (run_button 30 released bounce) released
changes_alternate_example = changes_alternate 30 released bounce

default_is_valid : validate_config default_config ≡ ok tt
unfolding validate_config trim is_empty is_whitespace
default_is_valid = refl
