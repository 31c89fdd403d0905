-- ===== src/Server/Buttons.antt =====
-- server/src/lib.rs: the calls behind a talk button, regular talk, and what the end of a control
-- connection clears. The loops over the actions of a button and over their users are one loop over
-- the users of its `Transmit` actions.
pub mod Release
use open_broadcast_intercom.Base.{
  ℕ, Bool, false, not, ◌||◌, none, some, List, [], ◌∷◌, ◌++◌, String, ◌==◌, nat_eq, string_eq,
  if◌then◌else◌, err, filter, contains,
}
use open_broadcast_intercom.Base.Map
use open_broadcast_intercom.Base.Map.{Map}
use open_broadcast_intercom.Base.Sorted.{nat_ord, sorted_unique}
use open_broadcast_intercom.Control.{
  TalkButtonConfig, TalkButtonAction, transmit, alert, apply_preset, set_talk_mode, route_edit,
}
use open_broadcast_intercom.Control.Actions.{transmit_users, users_of, button_targets, pressed}
use open_broadcast_intercom.Server.State.{
  Session, ServerState, Response, ack, unknown_client, push_config_update, push_all,
}
use open_broadcast_intercom.Server.Calls.{entry_of, log_call, trim_direct_history, close_history}

module _ {F : Type 0} where
  -- one round of the loop of `start_button_transmit_routes`
  unfoldable pub start_route :
      ℕ → ℕ → String → ℕ × Bool → List ℕ × Map (Session F) → List ℕ × Map (Session F)
  start_route now user_id button_id (target_user_id, duck) (targets, sessions) =
      if user_id == target_user_id || not (Map.contains_key sessions target_user_id)
      then (targets, sessions)
      else (let entry = entry_of user_id target_user_id now duck (some button_id) in
          let called = Map.modify sessions user_id (log_call entry) in
          (
            targets ++ target_user_id ∷ [],
            Map.modify called target_user_id
                (λ target. log_call entry (record target { last_direct_caller = some user_id })),
          ))

  unfoldable pub start_routes :
      ℕ → ℕ → String → List (ℕ × Bool) → List ℕ × Map (Session F) → List ℕ × Map (Session F)
  unfolding start_route
  start_routes now user_id button_id [] acc = acc
  start_routes now user_id button_id (user ∷ users) acc =
      start_routes now user_id button_id users (start_route now user_id button_id user acc)

  unfoldable pub trim_all : Map (Session F) → List ℕ → Map (Session F)
  trim_all sessions [] = sessions
  trim_all sessions (user_id ∷ users) = trim_all (trim_direct_history sessions user_id) users

  -- `start_button_transmit_routes`
  unfoldable pub start_button_transmit_routes :
      ServerState F → ℕ → ℕ → TalkButtonConfig → ServerState F
  start_button_transmit_routes state now user_id button =
      let (targets, sessions) =
        start_routes now user_id button.id (transmit_users button.actions) ([], state.sessions) in
      let state' : ServerState F = record state {
        sessions = trim_all (trim_direct_history sessions user_id) targets;
      } in
      push_all state' targets

  -- the loop that closes the calls of a button
  unfoldable pub close_routes : ℕ → ℕ → String → List (ℕ × Bool) → Map (Session F) → Map (Session F)
  close_routes now user_id button_id [] sessions = sessions
  close_routes now user_id button_id ((target_user_id, duck) ∷ users) sessions =
      close_routes now user_id button_id users
        (close_history sessions user_id target_user_id (some button_id) now)

  -- `stop_button_transmit_routes`
  unfoldable pub stop_button_transmit_routes :
      ServerState F → ℕ → ℕ → TalkButtonConfig → ServerState F
  stop_button_transmit_routes state now user_id button =
      let users = transmit_users button.actions in
      let state' : ServerState F = record state {
        sessions = close_routes now user_id button.id users state.sessions;
      } in
      push_all state' (users_of users)

  -- `apply_regular_talk_event`
  unfoldable pub apply_regular_talk_event : ServerState F → ℕ → ℕ → Bool → Response × ServerState F
  apply_regular_talk_event state now user_id active =
      if not (Map.contains_key state.sessions user_id)
      then (err (unknown_client user_id), state)
      else (let talk = λ (session : Session F). record session {
        regular_talk_active = active;
        last_seen = now;
      } in
          let state' : ServerState F = record state {
            sessions = Map.modify state.sessions user_id talk;
          } in
          (ack, push_config_update state' user_id))

  -- the configured buttons of a session that are active
  abbrev pub pressed_buttons : Session F → List TalkButtonConfig
  pressed_buttons session = pressed session.active_buttons session.buttons

  unfoldable pub close_buttons : ℕ → ℕ → List TalkButtonConfig → Map (Session F) → Map (Session F)
  close_buttons now user_id [] sessions = sessions
  close_buttons now user_id (button ∷ buttons) sessions =
      close_buttons now user_id buttons
        (close_routes now user_id button.id (transmit_users button.actions) sessions)

  unfoldable pub close_direct_calls : ℕ → ℕ → List ℕ → Map (Session F) → Map (Session F)
  close_direct_calls now user_id [] sessions = sessions
  close_direct_calls now user_id (target_user_id ∷ targets) sessions =
      close_direct_calls now user_id targets
        (close_history sessions user_id target_user_id none now)

  abbrev pub release_all : Session F → Session F
  release_all session = record session {
    active_buttons = [];
    regular_talk_active = false;
    active_direct_calls = [];
  }

  -- `clear_active_buttons`
  unfoldable pub clear_active_buttons : ServerState F → ℕ → ℕ → ServerState F
  clear_active_buttons state now user_id =
      let direct_call_targets : List ℕ = elim (Map.get state.sessions user_id) [
        | none ↦ []
        | some session ↦ Map.keys session.active_direct_calls
      ] in
      let active_buttons : List TalkButtonConfig = elim (Map.get state.sessions user_id) [
        | none ↦ []
        | some session ↦ pressed_buttons session
      ] in
      let targets = direct_call_targets ++ button_targets active_buttons in
      let buttons_closed = close_buttons now user_id active_buttons state.sessions in
      let calls_closed = close_direct_calls now user_id direct_call_targets buttons_closed in
      let state' : ServerState F = record state {
        sessions = Map.modify calls_closed user_id release_all;
      } in
      push_config_update (push_all state' (sorted_unique nat_ord targets)) user_id
