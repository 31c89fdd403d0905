-- ===== src/Server/Presses.antt =====
-- server/src/lib.rs: the state of a talk button, the first half of `apply_button_event`; the rest is
-- in Server/Activation.
pub mod Turns
use open_broadcast_intercom.Base.{
  ℕ, Bool, true, false, not, ◌&&◌, Option, none, some, List, String, string_eq, ◌==◌, if◌then◌else◌,
  find, contains, set_insert, set_remove, Result, ok, err,
}
use open_broadcast_intercom.Base.Map
use open_broadcast_intercom.Base.Map.{Map}
use open_broadcast_intercom.Control.{TalkButtonConfig, TalkButtonMode, momentary, latching}
use open_broadcast_intercom.Server.State.{Session, ControlError, unknown_client, unknown_button}

-- whether the button is active after the event
abbrev pub now_active : TalkButtonMode → Bool → Bool → Bool
now_active momentary was_active pressed = pressed
now_active latching was_active pressed = if pressed then not was_active else was_active

-- The button, with `became_active` and `became_inactive`.
pub record Press : Type 0 where
  pub button : TalkButtonConfig
  pub became_active : Bool
  pub became_inactive : Bool

module _ {F : Type 0} where
  -- what an event of a configured button does to the session
  unfoldable pub press_session :
      Session F → TalkButtonConfig → String → Bool → ℕ → Press × Session F
  press_session session button button_id pressed now =
      let was_active = contains session.active_buttons button_id in
      let is_active = now_active button.mode was_active pressed in
      (
        record {
          button = button;
          became_active = not was_active && is_active;
          became_inactive = was_active && not is_active;
        },
        record session {
          active_buttons =
              if is_active
              then set_insert session.active_buttons button_id
              else set_remove session.active_buttons button_id;
          last_seen = now;
        },
      )

  -- the block of `apply_button_event` that holds the lock of the sessions
  unfoldable pub press_button :
      Map (Session F) → ℕ → String → Bool → ℕ → Result ControlError Press × Map (Session F)
  press_button sessions user_id button_id pressed now = elim (Map.get sessions user_id) [
    | none ↦ (err (unknown_client user_id), sessions)
    | some session ↦ elim (find (λ button. button.id == button_id) session.buttons) [
      | none ↦ (err (unknown_button button_id user_id), sessions)
      | some button ↦ (
        ok (press_session session button button_id pressed now).0,
        Map.insert sessions user_id (press_session session button button_id pressed now).1,
      )
    ]
  ]
