-- ===== src/Server/Dispatch/Reached.antt =====
-- What holds of every state that the server reaches.
use open_broadcast_intercom.Base.{
  ℕ, inl, inr, Bool, not, Option, List, [], ◌∷◌, String, string_eq, ◌==◌, nat_eq, Bool-cases,
  Option-cases, Result, ok, err, find,
}
use open_broadcast_intercom.Base.Map.{Map}
use open_broadcast_intercom.Control.{
  AlertTarget, TalkButtonAction, transmit, alert, apply_preset, set_talk_mode, route_edit,
}
use open_broadcast_intercom.Server.Gains.{Gains}
use open_broadcast_intercom.Server.State.{Session, ControlError}
use open_broadcast_intercom.Server.Alerts.Sending.{IsOrderly}
use open_broadcast_intercom.Server.Calls.{apply_direct_call_event, apply_reply_call_event}
use open_broadcast_intercom.Server.Buttons.{
  apply_regular_talk_event, start_button_transmit_routes, stop_button_transmit_routes,
}
use open_broadcast_intercom.Server.Emergency.{apply_emergency_event}
use open_broadcast_intercom.Server.Presses.{Press, press_button}
use open_broadcast_intercom.Server.Config.Desired.{Limits, DesiredClientConfig, PresetConfig}
use open_broadcast_intercom.Server.Config.Handle.{Managed, apply_config_message, baseline_of}
use open_broadcast_intercom.Server.Activation.{
  Moment, Answer, action_users_or_self, edited, normalize_preset_clients, and_then, send_alerts,
  configure_all, apply_all, apply_preset_config, pushed_to, with_server, execute_action,
  execute_actions, after_press, with_press, apply_button_event,
}
use open_broadcast_intercom.Server.Dispatch.{
  ControlMessage, configure, ping, talk, emergency, button, send_alert, ack_alert, cancel_alert,
  direct_call, reply_call, ServerEvent, message, disconnect, end_connection, apply_control,
  after_event, run_server,
}
use open_broadcast_intercom.Server.Dispatch.Unchanged.{
  same-IsOrderly, pushed-IsOrderly, send-IsOrderly, ack-IsOrderly, cancel-IsOrderly, talk-Same,
  start-Same, stop-Same, end-Same, call-Same, reply-Same, emergency-Same, config-Same,
  apply_all-Same, desired-IsOrderly,
}

module _ (g : Gains) (limits : Limits g.F) where
  open g use {F}

  -- the alerts of the server after an answer are orderly
  abbrev Leaves : Answer × Managed F → Type 0
  Leaves result = IsOrderly result.1.server

  then-Leaves :
      (result : Answer × Managed F) (next : Managed F → Answer × Managed F)
      → Leaves result
      → ((state : Managed F) → IsOrderly state.server → Leaves (next state))
      → Leaves (and_then result next)
  then-Leaves (ok _, state) next o h = h state o
  then-Leaves (err e, state) next o h = o

  send_alerts-Leaves :
      (at' : Moment) (u : ℕ) (text : Option String) (targets : List AlertTarget) (state : Managed F)
      → IsOrderly state.server
      → Leaves (send_alerts at' u text targets state)
  unfolding send_alerts
  send_alerts-Leaves at' u text [] state o = o
  send_alerts-Leaves at' u text (target ∷ targets) state o =
      then-Leaves _ (λ next. send_alerts at' u text targets next)
        (send-IsOrderly state.server at'.now at'.now_ms u target text o)
        (λ next p. send_alerts-Leaves at' u text targets next p)

  configure_all-Leaves :
      (at' : Moment) (change : DesiredClientConfig F → DesiredClientConfig F) (users : List ℕ)
      (state : Managed F)
      → IsOrderly state.server
      → Leaves (configure_all g limits at' change users state)
  unfolding configure_all
  configure_all-Leaves at' change [] state o = o
  configure_all-Leaves at' change (u ∷ users) state o =
      then-Leaves _ (λ next. configure_all g limits at' change users next)
        (desired-IsOrderly g limits at'.saved at'.now state (change (baseline_of g limits state u))
          o)
        (λ next p. configure_all-Leaves at' change users next p)

  preset-Leaves :
      (at' : Moment) (state : Managed F) (preset : PresetConfig F)
      → IsOrderly state.server
      → Leaves (apply_preset_config g limits at' state preset)
  unfolding apply_preset_config
  preset-Leaves at' state preset o = elim (Bool-cases (not at'.saved)) [
    | inl e ↦ rw e o
    | inr e ↦ rw e (
        let configs = normalize_preset_clients g limits preset.clients in
        same-IsOrderly (apply_all g limits at'.now configs state.server) state.server
          (apply_all-Same g limits at'.now configs state.server) o)
  ]

  action-Leaves :
      (at' : Moment) (u : ℕ) (action : TalkButtonAction) (state : Managed F)
      → IsOrderly state.server
      → Leaves (execute_action g limits at' u action state)
  unfolding execute_action
  action-Leaves at' u (transmit channels users duck) state o = o
  action-Leaves at' u (alert targets text) state o = send_alerts-Leaves at' u text targets state o
  action-Leaves at' u (apply_preset preset_id) state o =
      elim (Option-cases
        (find (λ (preset : PresetConfig F). preset.id == preset_id) state.admin.presets)) [
          | inl e ↦ rw (e, execute_action) o
          | inr (preset, e) ↦ rw (e, execute_action) (preset-Leaves at' state preset o)
        ]
  action-Leaves at' u (set_talk_mode users mode) state o =
      configure_all-Leaves at' (λ desired. record desired { talk_mode = mode })
        (action_users_or_self users u) state o
  action-Leaves at' u (route_edit edit) state o =
      configure_all-Leaves at' (edited g limits edit) (action_users_or_self edit.users u) state o

  actions-Leaves :
      (at' : Moment) (u : ℕ) (actions : List TalkButtonAction) (state : Managed F)
      → IsOrderly state.server
      → Leaves (execute_actions g limits at' u actions state)
  unfolding execute_actions
  actions-Leaves at' u [] state o = o
  actions-Leaves at' u (action ∷ actions) state o =
      then-Leaves _ (λ next. execute_actions g limits at' u actions next)
        (action-Leaves at' u action state o) (λ next p. actions-Leaves at' u actions next p)

  press-Leaves :
      (at' : Moment) (u : ℕ) (press : Press) (state : Managed F)
      → IsOrderly state.server
      → Leaves (after_press g limits at' u press state)
  unfolding after_press
  press-Leaves at' u press state o =
      let started = start_button_transmit_routes state.server at'.now u press.button in
      let stopped = stop_button_transmit_routes state.server at'.now u press.button in
      elim (Bool-cases press.became_active) [
        | inl e ↦ rw e (
            then-Leaves _ (λ next. pushed_to g limits u next)
              (actions-Leaves at' u press.button.actions (with_server state started) (
                same-IsOrderly started state.server (start-Same state.server at'.now u press.button)
                  o))
              (λ next p. pushed-IsOrderly next.server u p))
        | inr e ↦ rw e (elim (Bool-cases press.became_inactive) [
          | inl f ↦ rw f (
              pushed-IsOrderly stopped u (
                same-IsOrderly stopped state.server (stop-Same state.server at'.now u press.button)
                  o))
          | inr f ↦ rw f (pushed-IsOrderly state.server u o)
        ])
      ]

  with_press-Leaves :
      (at' : Moment) (u : ℕ) (state : Managed F)
      (pressed : Result ControlError Press × Map (Session F))
      → IsOrderly state.server
      → Leaves (with_press g limits at' u state pressed)
  with_press-Leaves at' u state (err e, sessions) o = o
  with_press-Leaves at' u state (ok press, sessions) o = press-Leaves at' u press _ o

  button-Leaves :
      (at' : Moment) (state : Managed F) (u : ℕ) (id : String) (down : Bool)
      → IsOrderly state.server
      → Leaves (apply_button_event g limits at' state u id down)
  unfolding apply_button_event
  button-Leaves at' state u id down o =
      with_press-Leaves at' u state (press_button state.server.sessions u id down at'.now) o

  control-Leaves :
      (at' : Moment) (state : Managed F) (m : ControlMessage F)
      → IsOrderly state.server
      → Leaves (apply_control g limits at' state m)
  unfolding apply_control
  control-Leaves at' state (configure m) o =
      same-IsOrderly (apply_config_message g limits at'.saved at'.now state m).1.server state.server
        (config-Same g limits at'.saved at'.now state m) o
  control-Leaves at' state (ping u) o = o
  control-Leaves at' state (talk u active) o =
      same-IsOrderly (apply_regular_talk_event state.server at'.now u active).1 state.server
        (talk-Same state.server at'.now u active) o
  control-Leaves at' state (emergency u active target gain mute) o =
      same-IsOrderly (apply_emergency_event g state.server u active target gain mute).1 state.server
        (emergency-Same g state.server u active target gain mute) o
  control-Leaves at' state (button u id down) o =
      then-Leaves _ (λ next. apply_button_event g limits at' next u id down) o
        (λ next p. button-Leaves at' next u id down p)
  control-Leaves at' state (send_alert u target text) o =
      send-IsOrderly state.server at'.now at'.now_ms u target text o
  control-Leaves at' state (ack_alert u id) o = ack-IsOrderly state.server at'.now_ms u id o
  control-Leaves at' state (cancel_alert u id) o = cancel-IsOrderly state.server at'.now_ms u id o
  control-Leaves at' state (direct_call u t active duck) o =
      same-IsOrderly (apply_direct_call_event g state.server at'.now u t active duck).1 state.server
        (call-Same g state.server at'.now u t active duck) o
  control-Leaves at' state (reply_call u active duck) o =
      same-IsOrderly (apply_reply_call_event g state.server at'.now u active duck).1 state.server
        (reply-Same g state.server at'.now u active duck) o

  -- Over any sequence of events, each handled to its end before the next one: a message `Config`,
  -- `AudioCodec`, `TalkMode`, `Priority`, `Ping`, `Talk`, `Emergency`, `Button`, `SendAlert`,
  -- `AckAlert`, `CancelAlert`, `DirectCall` or `ReplyCall` of any client, or the end of a connection.
  -- If at first the identifiers of the alerts ascend below the next one and no alert has a recipient
  -- twice, that is so after the events too.
  pub run_server-IsOrderly :
      (state : Managed F) (events : List (Moment × ServerEvent F))
      → IsOrderly state.server
      → IsOrderly (run_server g limits state events).server
  unfolding run_server
  run_server-IsOrderly state [] o = o
  run_server-IsOrderly state ((at', message m) ∷ events) o =
      run_server-IsOrderly (after_event g limits at' state (message m)) events
        (control-Leaves at' state m o)
  run_server-IsOrderly state ((at', disconnect u is_current) ∷ events) o =
      run_server-IsOrderly (after_event g limits at' state (disconnect u is_current)) events (
        same-IsOrderly (end_connection at'.now is_current u state.server) state.server
          (end-Same state.server at'.now u is_current) o)
