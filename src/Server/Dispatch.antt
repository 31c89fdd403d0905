-- ===== src/Server/Dispatch.antt =====
-- server/src/lib.rs: `apply_control`, and the end of a control connection. The messages `Hello`,
-- `CaptureHealth`, `BridgeStatus` and `Status` are left out.
pub mod Unchanged
pub mod Reached
use open_broadcast_intercom.Base.{
  ℕ, Bool, Option, List, [], ◌∷◌, String, if◌then◌else◌, Result, ok, err,
}
use open_broadcast_intercom.Base.Map
use open_broadcast_intercom.Wire.Types.{Codec}
use open_broadcast_intercom.Control.{AlertTarget, EmergencyTarget, TalkMode}
use open_broadcast_intercom.Server.Gains.{Gains}
use open_broadcast_intercom.Server.State.{Session, ServerState, Response, new_session}
use open_broadcast_intercom.Server.Alerts.{
  apply_send_alert_event, apply_ack_alert_event, apply_cancel_alert_event,
}
use open_broadcast_intercom.Server.Calls.{apply_direct_call_event, apply_reply_call_event}
use open_broadcast_intercom.Server.Buttons.{apply_regular_talk_event, clear_active_buttons}
use open_broadcast_intercom.Server.Emergency.{apply_emergency_event, clear_emergency_for_source}
use open_broadcast_intercom.Server.Config.Desired.{Limits}
use open_broadcast_intercom.Server.Config.Lockout.{buttons}
use open_broadcast_intercom.Server.Config.Handle.{
  Managed, ConfigMessage, apply_config_message, allowed_for,
}
use open_broadcast_intercom.Server.Activation.{
  Moment, Answer, of_control, of_config, with_server, and_then, apply_button_event,
}

-- The messages of a client that `apply_control` takes.
pub data ControlMessage (F : Type 0) : Type 0 where
  configure : ConfigMessage F → ControlMessage F
  ping : ℕ → ControlMessage F
  talk : ℕ → Bool → ControlMessage F
  emergency : ℕ → Bool → EmergencyTarget → F → Bool → ControlMessage F
  button : ℕ → String → Bool → ControlMessage F
  send_alert : ℕ → AlertTarget → Option String → ControlMessage F
  ack_alert : ℕ → ℕ → ControlMessage F
  cancel_alert : ℕ → ℕ → ControlMessage F
  direct_call : ℕ → ℕ → Bool → Bool → ControlMessage F
  reply_call : ℕ → Bool → Bool → ControlMessage F

-- A message is handled, or the connection of a user ends, which may still be the registered one.
pub data ServerEvent (F : Type 0) : Type 0 where
  message : ControlMessage F → ServerEvent F
  disconnect : ℕ → Bool → ServerEvent F

module _ {F : Type 0} where
  abbrev pub answered : Managed F → Response × ServerState F → Answer × Managed F
  answered state (response, server) = (of_control response, with_server state server)

  -- `unregister_control_client`, of which the sender is still registered or not
  abbrev pub unregistered : Bool → ℕ → ServerState F → ServerState F
  unregistered is_current user_id state = record state {
    control_clients =
        if is_current then Map.remove state.control_clients user_id else state.control_clients;
  }

  -- the end of `handle_control_connection`
  unfoldable pub end_connection : ℕ → Bool → ℕ → ServerState F → ServerState F
  end_connection now is_current user_id state =
      clear_emergency_for_source
        (clear_active_buttons (unregistered is_current user_id state) now user_id) user_id

module _ (g : Gains) (limits : Limits g.F) where
  open g use {F}

  -- `ControlMessage::Ping`
  abbrev pub pinged : ℕ → ℕ → ServerState F → ServerState F
  pinged now user_id state = record state {
    sessions =
        Map.modify (Map.or_insert state.sessions user_id (new_session g now)) user_id
          (λ session. record session { last_seen = now });
  }

  -- `apply_control`
  unfoldable pub apply_control : Moment → Managed F → ControlMessage F → Answer × Managed F
  apply_control at' state (configure m) =
      let result = apply_config_message g limits at'.saved at'.now state m in
      (of_config result.0, result.1)
  apply_control at' state (ping u) = (ok tt, with_server state (pinged at'.now u state.server))
  apply_control at' state (talk u active) =
      answered state (apply_regular_talk_event state.server at'.now u active)
  apply_control at' state (emergency u active target gain mute) =
      answered state (apply_emergency_event g state.server u active target gain mute)
  apply_control at' state (button u id pressed) =
      and_then (of_config (allowed_for g limits state u (λ p. p.allow_buttons) buttons), state)
        (λ next. apply_button_event g limits at' next u id pressed)
  apply_control at' state (send_alert u target text) =
      answered state (apply_send_alert_event state.server at'.now at'.now_ms u target text)
  apply_control at' state (ack_alert u id) =
      answered state (apply_ack_alert_event state.server at'.now_ms u id)
  apply_control at' state (cancel_alert u id) =
      answered state (apply_cancel_alert_event state.server at'.now_ms u id)
  apply_control at' state (direct_call u t active duck) =
      answered state (apply_direct_call_event g state.server at'.now u t active duck)
  apply_control at' state (reply_call u active duck) =
      answered state (apply_reply_call_event g state.server at'.now u active duck)

  abbrev pub after_event : Moment → Managed F → ServerEvent F → Managed F
  after_event at' state (message m) = (apply_control at' state m).1
  after_event at' state (disconnect u is_current) =
      with_server state (end_connection at'.now is_current u state.server)

  -- the server after these events, each at its moment
  unfoldable pub run_server : Managed F → List (Moment × ServerEvent F) → Managed F
  run_server state [] = state
  run_server state ((at', event) ∷ events) = run_server (after_event at' state event) events
