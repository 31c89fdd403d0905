-- ===== src/Server/Activation.antt =====
-- server/src/lib.rs: a talk button with all that its activation does, `apply_button_event`.
use open_broadcast_intercom.Base.{
  ℕ, Bool, Option, none, some, List, [], ◌∷◌, String, ◌==◌, string_eq, if◌then◌else◌, find, not,
  map, Result, ok, err,
}
use mathlib.Core.Option
use open_broadcast_intercom.Base.Map.{Map}
use open_broadcast_intercom.Base.Stable.{sort_by}
use open_broadcast_intercom.Control.{
  AlertTarget, RouteEdit, TalkButtonAction, transmit, alert, apply_preset, set_talk_mode,
  route_edit,
}
use open_broadcast_intercom.Server.Gains.{Gains}
use open_broadcast_intercom.Server.State.{Session, ServerState, ControlError, push_config_update}
use open_broadcast_intercom.Server.Alerts.{apply_send_alert_event}
use open_broadcast_intercom.Server.Buttons.{
  start_button_transmit_routes, stop_button_transmit_routes,
}
use open_broadcast_intercom.Server.Presses.{Press, press_button}
use open_broadcast_intercom.Server.Routes.{apply_route_edits}
use open_broadcast_intercom.Server.Ifb.{normalize_ifb_config}
use open_broadcast_intercom.Server.Config.Buttons.{normalize_button_configs, sorted_unique_channels}
use open_broadcast_intercom.Server.Config.Desired.{
  DesiredClientConfig, AdminState, PresetConfig, Limits, normalize_client_uid,
  upsert_desired_client, user_id_le,
}
use open_broadcast_intercom.Server.Config.Apply.{
  normalize_talker_volumes, normalize_stereo_config, apply_desired_to_live_session,
}
use open_broadcast_intercom.Server.Config.Lockout.{ConfigError, save_failed}
use open_broadcast_intercom.Server.Config.Handle.{
  Managed, ConfigResponse, apply_desired_client, baseline_of,
}

-- What a request failed by.
pub data ServerError : Type 0 where
  control : ControlError → ServerError
  config : ConfigError → ServerError
  unknown_preset : String → ServerError

-- the result of the save, and the times of the monotonic and of the wall clock
pub record Moment : Type 0 where
  pub saved : Bool
  pub now : ℕ
  pub now_ms : ℕ

abbrev pub Answer : Type 0
Answer = Result ServerError (Unit {0})

abbrev pub of_control : Result ControlError (Unit {0}) → Answer
of_control (ok _) = ok tt
of_control (err e) = err (control e)

abbrev pub of_config : ConfigResponse → Answer
of_config (ok _) = ok tt
of_config (err e) = err (config e)

-- `action_users_or_self`
unfoldable pub action_users_or_self : List ℕ → ℕ → List ℕ
action_users_or_self [] user_id = user_id ∷ []
action_users_or_self (user ∷ users) user_id = user ∷ users

module _ {F : Type 0} where
  -- an error ends the handler
  abbrev pub and_then : Answer × Managed F → (Managed F → Answer × Managed F) → Answer × Managed F
  and_then (ok _, state) next = next state
  and_then (err e, state) next = (err e, state)

  abbrev pub with_server : Managed F → ServerState F → Managed F
  with_server state server = record state { server = server }

  -- the alerts of one action
  unfoldable pub send_alerts :
      Moment → ℕ → Option String → List AlertTarget → Managed F → Answer × Managed F
  send_alerts at' user_id message [] state = (ok tt, state)
  send_alerts at' user_id message (target ∷ targets) state =
      let sent = apply_send_alert_event state.server at'.now at'.now_ms user_id target message in
      and_then (of_control sent.0, with_server state sent.1)
        (λ next. send_alerts at' user_id message targets next)

module _ (g : Gains) (limits : Limits g.F) where
  open g use {F}

  -- the configurations of these users, changed
  unfoldable pub configure_all :
      Moment
      → (DesiredClientConfig F → DesiredClientConfig F)
      → List ℕ
      → Managed F
      → Answer × Managed F
  configure_all at' change [] state = (ok tt, state)
  configure_all at' change (user_id ∷ users) state =
      let done =
        apply_desired_client g limits at'.saved at'.now state
          (change (baseline_of g limits state user_id)) in
      and_then (of_config done.0, done.1) (λ next. configure_all at' change users next)

  abbrev pub edited : RouteEdit → DesiredClientConfig F → DesiredClientConfig F
  edited edit desired = record desired {
    listen = apply_route_edits desired.listen edit.listen_add edit.listen_remove edit.listen_toggle;
    tx = apply_route_edits desired.tx edit.tx_add edit.tx_remove edit.tx_toggle;
  }

  abbrev pub normalize_preset_client : DesiredClientConfig F → DesiredClientConfig F
  normalize_preset_client desired = record desired {
    client_uid =
        Option.map (λ uid. normalize_client_uid uid (some desired.user_id)) desired.client_uid;
    buttons = normalize_button_configs desired.buttons;
    ifb = normalize_ifb_config g desired.ifb;
    talker_vol = normalize_talker_volumes g limits desired.talker_vol desired.user_id;
    stereo = normalize_stereo_config g limits desired.stereo;
    priority_channels = sorted_unique_channels desired.priority_channels;
  }

  -- `normalize_preset_clients`
  unfoldable pub normalize_preset_clients :
      List (DesiredClientConfig F) → List (DesiredClientConfig F)
  normalize_preset_clients clients = sort_by user_id_le (map normalize_preset_client clients)

  unfoldable pub upsert_all :
      List (DesiredClientConfig F) → List (DesiredClientConfig F) → List (DesiredClientConfig F)
  upsert_all clients [] = clients
  upsert_all clients (desired ∷ rest) = upsert_all (upsert_desired_client clients desired) rest

  unfoldable pub apply_all : ℕ → List (DesiredClientConfig F) → ServerState F → ServerState F
  apply_all now [] server = server
  apply_all now (desired ∷ rest) server = apply_all now rest (
      push_config_update
        (record server {
          sessions = apply_desired_to_live_session g limits now desired server.sessions;
        })
        desired.user_id)

  -- `apply_preset`
  unfoldable pub apply_preset_config : Moment → Managed F → PresetConfig F → Answer × Managed F
  unfolding upsert_all apply_all normalize_preset_clients
  apply_preset_config at' state preset =
      let clients = normalize_preset_clients preset.clients in
      let admin : AdminState F = record state.admin {
        clients = upsert_all state.admin.clients clients;
      } in
      if not at'.saved
      then (err (config save_failed), record state { admin = admin })
      else (ok tt, record { admin = admin; server = apply_all at'.now clients state.server })

  -- one round of the loop of `execute_button_activation_actions`
  unfoldable pub execute_action : Moment → ℕ → TalkButtonAction → Managed F → Answer × Managed F
  unfolding send_alerts configure_all apply_preset_config
  execute_action at' user_id (transmit channels users duck) state = (ok tt, state)
  execute_action at' user_id (alert targets message) state =
      send_alerts at' user_id message targets state
  execute_action at' user_id (apply_preset preset_id) state =
      elim (find (λ (preset : PresetConfig F). preset.id == preset_id) state.admin.presets) [
        | none ↦ (err (unknown_preset preset_id), state)
        | some preset ↦ apply_preset_config at' state preset
      ]
  execute_action at' user_id (set_talk_mode users mode) state =
      configure_all at' (λ desired. record desired { talk_mode = mode })
        (action_users_or_self users user_id) state
  execute_action at' user_id (route_edit edit) state =
      configure_all at' (edited edit) (action_users_or_self edit.users user_id) state

  -- `execute_button_activation_actions`
  unfoldable pub execute_actions :
      Moment → ℕ → List TalkButtonAction → Managed F → Answer × Managed F
  unfolding execute_action
  execute_actions at' user_id [] state = (ok tt, state)
  execute_actions at' user_id (action ∷ actions) state =
      and_then (execute_action at' user_id action state)
        (λ next. execute_actions at' user_id actions next)

  abbrev pub pushed_to : ℕ → Managed F → Answer × Managed F
  pushed_to user_id state = (ok tt, with_server state (push_config_update state.server user_id))

  -- what follows the press
  unfoldable pub after_press : Moment → ℕ → Press → Managed F → Answer × Managed F
  unfolding execute_actions
  after_press at' user_id press state =
      if press.became_active
      then and_then
          (execute_actions at' user_id press.button.actions (
            with_server state
              (start_button_transmit_routes state.server at'.now user_id press.button)))
          (λ next. pushed_to user_id next)
      else if press.became_inactive
      then pushed_to user_id (
          with_server state (stop_button_transmit_routes state.server at'.now user_id press.button))
      else pushed_to user_id state

  abbrev pub with_press :
      Moment → ℕ → Managed F → Result ControlError Press × Map (Session F) → Answer × Managed F
  with_press at' user_id state (err e, sessions) = (err (control e), state)
  with_press at' user_id state (ok press, sessions) =
      after_press at' user_id press
        (with_server state (record state.server { sessions = sessions }))

  -- `apply_button_event`
  unfoldable pub apply_button_event : Moment → Managed F → ℕ → String → Bool → Answer × Managed F
  unfolding after_press
  apply_button_event at' state user_id button_id pressed =
      with_press at' user_id state
        (press_button state.server.sessions user_id button_id pressed at'.now)
