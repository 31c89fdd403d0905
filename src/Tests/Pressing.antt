-- ===== src/Tests/Pressing.antt =====
-- Talk buttons.
use open_broadcast_intercom.Base.{
  ◌+◌, ◌≡◌, Bool, true, false, List, [], ◌∷◌, string_eq, ◌==◌, if◌then◌else◌, contains,
}
use open_broadcast_intercom.Control.{TalkButtonConfig, latching}
use open_broadcast_intercom.Server.Presses.Turns.{
  press_all, active_after, turns, one_if, presses_exact,
}
use open_broadcast_intercom.Tests.Samples.{director, stage_button}

abbrev latch : TalkButtonConfig
latch = record stage_button { mode = latching }

abbrev twice : List Bool
twice = true ∷ false ∷ true ∷ false ∷ true ∷ []

presses_exact_example :
    let ((starts, stops), last) = press_all latch 9 twice director in
    let was = contains director.active_buttons latch.id in
    (contains last.active_buttons "stage" ≡ (
      if "stage" == latch.id
      then active_after latch.mode twice was
      else contains director.active_buttons "stage"))
    × (starts + stops ≡ turns latch.mode twice was)
    × (one_if was + starts ≡ one_if (active_after latch.mode twice was) + stops)
presses_exact_example = presses_exact latch 9 twice director "stage"
