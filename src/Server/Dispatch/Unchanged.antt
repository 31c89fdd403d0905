-- ===== src/Server/Dispatch/Unchanged.antt =====
-- The handlers that leave the alerts as they are, and those of alerts, which keep them orderly.
use open_broadcast_intercom.Base.{
  ℕ, ◌≡◌, refl, ◌∙◌, inl, inr, Bool, true, false, not, Option, none, some, List, [], ◌∷◌, String,
  string_eq, arith, ◌==◌, nat_eq, Bool-cases, Option-cases, ok, err,
}
use open_broadcast_intercom.Base.Map
use open_broadcast_intercom.Base.Map.{Map}
use open_broadcast_intercom.Control.{AlertTarget, EmergencyTarget, TalkButtonConfig}
use open_broadcast_intercom.Server.Gains.{Gains}
use open_broadcast_intercom.Server.State.{
  ServerState, SameCore-trans, push-SameCore, push_all-SameCore, push_config_update,
}
use open_broadcast_intercom.Server.Alerts.{
  apply_send_alert_event, apply_ack_alert_event, apply_cancel_alert_event,
}
use open_broadcast_intercom.Server.Alerts.Sending.{IsOrderly, send_alert_pending}
use open_broadcast_intercom.Server.Alerts.Settling.{ack_alert_pending, cancel_alert_pending}
use open_broadcast_intercom.Server.Calls.{apply_direct_call_event, apply_reply_call_event}
use open_broadcast_intercom.Server.Calls.Effect.{called, direct_call_cases}
use open_broadcast_intercom.Server.Buttons.{
  apply_regular_talk_event, clear_active_buttons, start_button_transmit_routes,
  stop_button_transmit_routes,
}
use open_broadcast_intercom.Server.Emergency.{
  apply_emergency_event, clear_emergency_for_source, with_emergency, new_emergency, affected_users,
}
use open_broadcast_intercom.Server.Config.Desired.{Limits, DesiredClientConfig}
use open_broadcast_intercom.Server.Config.Handle.{
  Managed, apply_desired_client, ConfigMessage, set_config, set_codec, set_mode, set_priority,
  apply_config_message, apply_config, apply_audio_codec, apply_talk_mode, apply_priority,
  unless_refused, ConfigResponse,
}
use open_broadcast_intercom.Server.Activation.{apply_all}
use open_broadcast_intercom.Server.Dispatch.{end_connection, unregistered}

module _ {F : Type 0} where
  -- The alerts are as they were.
  abbrev pub SameAlerts : ServerState F → ServerState F → Type 0
  SameAlerts a b = (a.alerts ≡ b.alerts) × (a.next_alert_id ≡ b.next_alert_id)

  pub same-IsOrderly : (a b : ServerState F) → SameAlerts a b → IsOrderly b → IsOrderly a
  same-IsOrderly a b (e, f) o = rw (e, f) o

  pub pushed-Same : (a : ServerState F) (u : ℕ) → SameAlerts (push_config_update a u) a
  pushed-Same a u = let s = push-SameCore a u in (s.alerts, s.next_alert_id)

  pub pushed-IsOrderly :
      (a : ServerState F) (u : ℕ) → IsOrderly a → IsOrderly (push_config_update a u)
  pushed-IsOrderly a u o = same-IsOrderly (push_config_update a u) a (pushed-Same a u) o

  pub send-IsOrderly :
      (state : ServerState F) (now t u : ℕ) (target : AlertTarget) (text : Option String)
      → IsOrderly state
      → IsOrderly (apply_send_alert_event state now t u target text).1
  send-IsOrderly state now t u target text o =
      elim (send_alert_pending state now t u target text o) [
        | inl (e, f) ↦ rw f o
        | inr (e, f) ↦ f.1
      ]

  pub ack-IsOrderly :
      (state : ServerState F) (t u i : ℕ)
      → IsOrderly state
      → IsOrderly (apply_ack_alert_event state t u i).1
  ack-IsOrderly state t u i o = elim (ack_alert_pending state t u i o) [
    | inl (e, f) ↦ rw f o
    | inr (a, e, inl (m, f)) ↦ rw f o
    | inr (a, e, inr (m, f)) ↦ f.1
  ]

  pub cancel-IsOrderly :
      (state : ServerState F) (t u i : ℕ)
      → IsOrderly state
      → IsOrderly (apply_cancel_alert_event state t u i).1
  cancel-IsOrderly state t u i o = elim (cancel_alert_pending state t u i o) [
    | inl (e, f) ↦ rw f o
    | inr (a, e, inl (m, f)) ↦ rw f o
    | inr (a, e, inr (m, f)) ↦ f.1
  ]

  pub talk-Same :
      (state : ServerState F) (now u : ℕ) (active : Bool)
      → SameAlerts (apply_regular_talk_event state now u active).1 state
  unfolding apply_regular_talk_event
  talk-Same state now u active = elim (Bool-cases (not (Map.contains_key state.sessions u))) [
    | inl e ↦ rw e (refl, refl)
    | inr e ↦ rw e (pushed-Same _ u)
  ]

  pub start-Same :
      (state : ServerState F) (now u : ℕ) (b : TalkButtonConfig)
      → SameAlerts (start_button_transmit_routes state now u b) state
  unfolding start_button_transmit_routes
  start-Same state now u b = let s = push_all-SameCore _ _ in (s.alerts, s.next_alert_id)

  pub stop-Same :
      (state : ServerState F) (now u : ℕ) (b : TalkButtonConfig)
      → SameAlerts (stop_button_transmit_routes state now u b) state
  unfolding stop_button_transmit_routes
  stop-Same state now u b = let s = push_all-SameCore _ _ in (s.alerts, s.next_alert_id)

  pub clear_emergency-Same :
      (state : ServerState F) (u : ℕ) → SameAlerts (clear_emergency_for_source state u) state
  unfolding clear_emergency_for_source
  clear_emergency-Same state u = elim (Option-cases state.emergency) [
    | inl e ↦ rw (e, clear_emergency_for_source) (refl, refl)
    | inr (current, e) ↦ elim (Bool-cases (current.source == u)) [
      | inl f ↦
          rw (e, f, clear_emergency_for_source)
            (let s = push_all-SameCore (with_emergency state none) (Map.keys state.sessions) in
              (s.alerts, s.next_alert_id))
      | inr f ↦ rw (e, f, clear_emergency_for_source) (refl, refl)
    ]
  ]

  pub clear-Same :
      (state : ServerState F) (now u : ℕ) → SameAlerts (clear_active_buttons state now u) state
  unfolding clear_active_buttons
  clear-Same state now u =
      let s = SameCore-trans (push-SameCore _ u) (push_all-SameCore _ _) in
      (s.alerts, s.next_alert_id)

  pub end-Same :
      (state : ServerState F) (now u : ℕ) (is_current : Bool)
      → SameAlerts (end_connection now is_current u state) state
  unfolding end_connection
  end-Same state now u is_current =
      let open_state = unregistered is_current u state in
      let cleared = clear_active_buttons open_state now u in
      let (e, f) = clear_emergency-Same cleared u in
      let (h, k) = clear-Same open_state now u in (e ∙ h, f ∙ k)

module _ (g : Gains) where
  open g use {F}

  pub call-Same :
      (state : ServerState F) (now u t : ℕ) (active duck : Bool)
      → SameAlerts (apply_direct_call_event g state now u t active duck).1 state
  call-Same state now u t active duck =
      rw (direct_call_cases g state now u t active duck) (elim (Bool-cases (u == t)) [
        | inl e ↦ rw e (refl, refl)
        | inr e ↦ rw e (elim (Bool-cases (not (Map.contains_key state.sessions t))) [
          | inl f ↦ rw f (refl, refl)
          | inr f ↦ rw f (
              let s =
                SameCore-trans
                  (push-SameCore (push_config_update (called g state now u t active duck) u) t)
                  (push-SameCore (called g state now u t active duck) u) in
              (s.alerts, s.next_alert_id))
        ])
      ])

  pub reply-Same :
      (state : ServerState F) (now u : ℕ) (active duck : Bool)
      → SameAlerts (apply_reply_call_event g state now u active duck).1 state
  unfolding apply_reply_call_event
  reply-Same state now u active duck = elim (Option-cases (Map.get state.sessions u)) [
    | inl e ↦ rw (e, apply_reply_call_event) (refl, refl)
    | inr (s, e) ↦ elim (Option-cases s.last_direct_caller) [
      | inl f ↦ rw (e, f, apply_reply_call_event) (refl, refl)
      | inr (t, f) ↦ rw (e, f, apply_reply_call_event) (call-Same state now u t active duck)
    ]
  ]

  pub emergency-Same :
      (state : ServerState F) (u : ℕ) (active : Bool) (target : EmergencyTarget) (gain : F)
      (mute : Bool)
      → SameAlerts (apply_emergency_event g state u active target gain mute).1 state
  unfolding apply_emergency_event
  emergency-Same state u true target gain mute =
      let started = with_emergency state (some (new_emergency g u target gain mute)) in
      ground (arith, push_all-SameCore started (affected_users state u))
  emergency-Same state u false target gain mute = ground (
    arith,
    push_all-SameCore state (affected_users state u),
    push_all-SameCore (with_emergency state none) (affected_users state u),
  )

module _ (g : Gains) (limits : Limits g.F) where
  open g use {F}

  pub desired-Same :
      (saved : Bool) (now : ℕ) (state : Managed F) (d : DesiredClientConfig F)
      → SameAlerts (apply_desired_client g limits saved now state d).1.server state.server
  unfolding apply_desired_client
  desired-Same false now state d = (refl, refl)
  desired-Same true now state d = pushed-Same _ d.user_id

  pub guarded-Same :
      (saved : Bool) (now : ℕ) (state : Managed F) (check : ConfigResponse)
      (d : DesiredClientConfig F)
      → SameAlerts
          (unless_refused g limits check state
            (apply_desired_client g limits saved now state d)).1.server
          state.server
  guarded-Same saved now state (ok _) d = desired-Same saved now state d
  guarded-Same saved now state (err e) d = (refl, refl)

  pub config-Same :
      (saved : Bool) (now : ℕ) (state : Managed F) (m : ConfigMessage F)
      → SameAlerts (apply_config_message g limits saved now state m).1.server state.server
  unfolding apply_config_message apply_config apply_audio_codec apply_talk_mode apply_priority
  config-Same saved now state (set_config r) = guarded-Same saved now state _ _
  config-Same saved now state (set_codec u c) = guarded-Same saved now state _ _
  config-Same saved now state (set_mode u mode) = guarded-Same saved now state _ _
  config-Same saved now state (set_priority u a) = guarded-Same saved now state _ _

  pub apply_all-Same :
      (now : ℕ) (configs : List (DesiredClientConfig F)) (server : ServerState F)
      → SameAlerts (apply_all g limits now configs server) server
  unfolding apply_all
  apply_all-Same now [] server = (refl, refl)
  apply_all-Same now (d ∷ configs) server =
      let (e, f) = apply_all-Same now configs _ in
      let (h, k) = pushed-Same _ d.user_id in (e ∙ h, f ∙ k)

  pub desired-IsOrderly :
      (saved : Bool) (now : ℕ) (state : Managed F) (d : DesiredClientConfig F)
      → IsOrderly state.server
      → IsOrderly (apply_desired_client g limits saved now state d).1.server
  desired-IsOrderly saved now state d o =
      same-IsOrderly (apply_desired_client g limits saved now state d).1.server state.server
        (desired-Same saved now state d) o
