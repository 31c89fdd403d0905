-- ===== src/Server/Routes/Agreement.antt =====
-- The server and a client that follows it agree on where the user's audio goes.
use open_broadcast_intercom.Base.{
  ℕ, ◌≡◌, refl, ap, ◌∙◌, Bool, false, ◌&&◌, ◌||◌, some, List, [], ◌∷◌, String, string_eq, nat_eq,
  arith, if◌then◌else◌, filter, contains, contains-set_extend, set_extend,
}
use mathlib.Core.List.{map}
use open_broadcast_intercom.Base.Map
use open_broadcast_intercom.Base.Map.{Map, contains-keys, contains_key-get}
use open_broadcast_intercom.Base.Sorted.{nat_ord, sort, mem, mem-sort}
use open_broadcast_intercom.Base.Text.{string_ord}
use open_broadcast_intercom.Wire.Types.{AudioTarget, channel, direct, mixed}
use open_broadcast_intercom.Control.{TalkButtonConfig, target_ord, target_eq, target_beq}
use open_broadcast_intercom.Control.Actions.{button_targets, button_channels, pressed}
use open_broadcast_intercom.Client.{
  Payload, ClientConfig, talks, active_tx_targets, leads_emergency,
}
use open_broadcast_intercom.Client.Targets.{wanted, targets_exact, channels_in, users_in}
use open_broadcast_intercom.Server.State.{Session}
use open_broadcast_intercom.Server.Buttons.{pressed_buttons}
use open_broadcast_intercom.Server.Routes.{
  effective_tx_channels, session_tx_targets, active_direct_call_statuses_for_user,
}
use open_broadcast_intercom.Server.Routes.Reports.{calls_user, reports_exact}

pressed-sort :
    (active : List String) (buttons : List TalkButtonConfig)
    → pressed (sort string_ord active) buttons ≡ pressed active buttons
unfolding filter
pressed-sort active [] = refl
pressed-sort active (b ∷ buttons) =
    ground (arith, mem-sort string_ord active b.id, pressed-sort active buttons)

-- What the server reports of a session is in the client's configuration.
pub record Follows {p : Payload} (sessions : Map (Session p.F)) (session : Session p.F)
    (config : ClientConfig p) : Type 0 where
  pub same_mode : config.talk_mode ≡ session.talk_mode
  pub same_talk : config.regular_talk_active ≡ session.regular_talk_active
  pub same_tx : config.tx ≡ sort nat_ord session.tx_channels
  pub same_buttons : config.buttons ≡ session.buttons
  pub same_active : config.active_buttons ≡ sort string_ord session.active_buttons
  pub same_calls :
      config.active_direct_calls ≡ active_direct_call_statuses_for_user config.user_id sessions

module _ {F : Type 0} where
  session_channels :
      (session : Session F) (c : ℕ)
      → contains (effective_tx_channels session) c ≡ (
          (talks session.talk_mode session.regular_talk_active && contains session.tx_channels c)
          || contains (button_channels (pressed_buttons session)) c)
  unfolding effective_tx_channels contains set_extend
  session_channels session c =
      let tx =
        if talks session.talk_mode session.regular_talk_active
        then set_extend [] session.tx_channels
        else [] in
      ground (
        arith,
        contains-set_extend tx (button_channels (pressed_buttons session)) c,
        contains-set_extend [] session.tx_channels c,
      )

  -- a target that the session transmits to
  abbrev pub session_wants : Session F → AudioTarget → Bool
  session_wants session (channel c) =
      (talks session.talk_mode session.regular_talk_active && contains session.tx_channels c)
      || contains (button_channels (pressed_buttons session)) c
  session_wants session (direct u) = calls_user session u
  session_wants session mixed = false

  -- The server takes a user's audio to go to exactly these targets: the channels of the session's
  -- `tx` while it talks, the channels and users of its active buttons, and its direct calls.
  pub session_targets_exact :
      (session : Session F) (t : AudioTarget)
      → contains (session_tx_targets session) t ≡ session_wants session t
  unfolding session_tx_targets contains
  session_targets_exact session t =
      let channels = set_extend [] (map channel (effective_tx_channels session)) in
      let calls = set_extend channels (map direct (Map.keys session.active_direct_calls)) in
      contains-set_extend calls (map direct (button_targets (pressed_buttons session))) t
      ∙ ap (λ b. contains (map direct (button_targets (pressed_buttons session))) t || b)
          (contains-set_extend channels (map direct (Map.keys session.active_direct_calls)) t
            ∙ ap (λ b. contains (map direct (Map.keys session.active_direct_calls)) t || b)
                (contains-set_extend [] (map channel (effective_tx_channels session)) t))
      ∙ one_of t
    where
      one_of :
          (t : AudioTarget)
          → (contains (map direct (button_targets (pressed_buttons session))) t
              || (contains (map direct (Map.keys session.active_direct_calls)) t
                  || (contains (map channel (effective_tx_channels session)) t || false)))
            ≡ session_wants session t
      one_of (channel c) = ground (
        arith,
        users_in (button_targets (pressed_buttons session)) (channel c),
        users_in (Map.keys session.active_direct_calls) (channel c),
        channels_in (effective_tx_channels session) (channel c),
        session_channels session c,
      )
      one_of (direct u) = ground (
        arith,
        users_in (button_targets (pressed_buttons session)) (direct u),
        users_in (Map.keys session.active_direct_calls) (direct u),
        channels_in (effective_tx_channels session) (direct u),
        contains-keys session.active_direct_calls u,
      )
      one_of mixed = ground (
        arith,
        users_in (button_targets (pressed_buttons session)) mixed,
        users_in (Map.keys session.active_direct_calls) mixed,
        channels_in (effective_tx_channels session) mixed,
      )

module _ {p : Payload} where
  -- A client whose configuration is what the server reports of its session transmits to exactly the
  -- targets that the server takes its audio to go to, and to the mixed stream while it leads the
  -- emergency.
  pub targets_agree :
      (sessions : Map (Session p.F)) (session : Session p.F) (config : ClientConfig p)
      → Map.get sessions config.user_id ≡ some session
      → Follows sessions session config
      → (t : AudioTarget)
      → mem target_ord (active_tx_targets config) t ≡ (
          contains (session_tx_targets session) t || (target_beq mixed t && leads_emergency config))
  targets_agree sessions session config found follows t = targets_exact config t ∙ agree t
    where
      buttons_agree : pressed config.active_buttons config.buttons ≡ pressed_buttons session
      buttons_agree =
          rw (follows.same_active, follows.same_buttons)
            (pressed-sort session.active_buttons session.buttons)

      agree :
          (t : AudioTarget)
          → wanted config t ≡ (
              contains (session_tx_targets session) t
              || (target_beq mixed t && leads_emergency config))
      agree (channel c) = ground (
        arith,
        session_targets_exact session (channel c),
        buttons_agree,
        follows.same_mode,
        follows.same_talk,
        follows.same_tx,
        mem-sort nat_ord session.tx_channels c,
      )
      agree (direct u) = ground (
        arith,
        session_targets_exact session (direct u),
        buttons_agree,
        follows.same_calls,
        reports_exact sessions config.user_id u,
        found,
      )
      agree mixed = ground (arith, session_targets_exact session mixed)
